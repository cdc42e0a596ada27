-- ===== src/Examples/Phone.antt =====
-- Logins of src/rcrpc-client/voip.c and bin/commands.c to a platform that keeps what it is given.
use rcrpc.Base.{
  ℕ, zero, suc, ◌≡◌, refl, arith, true, none, some, List, [], ◌∷◌, ◌++◌, take, replicate, pos,
}
use rcrpc.Names.Tables.{codes}
use rcrpc.Cli.Shell.{is_space, skip_spaces}
use rcrpc.Phone.Voip.{VoipApi, VoipStubs, logged_in, voip_login, remote_voip_login}
use rcrpc.Phone.Login.{Text, DeliversLogin, remote_voip_login_overrun}
use rcrpc.Commands.Numbers.{strtoul}
use rcrpc.Commands.Lines.{ended}
use rcrpc.Commands.Phone.{exec_voip_login}
use rcrpc.Commands.PhoneShown.{exec_voip_login_delivers}

-- The user name of the last login.
abbrev Seen : Type 0
Seen = List ℕ

abbrev voip_api : VoipApi Seen
voip_api = record {
  api_login = λ server port user password transport w. (pos 0, user);
  api_logout = λ w. (pos 0, []);
  api_get_login_state = λ w. (pos 0, logged_in, w);
  api_call = λ uri w. (pos 0, w);
  api_accept = λ uri w. (pos 0, uri, w);
  api_terminate = λ w. (pos 0, w);
  api_get_contact = λ w. (pos 0, some w, w);
  api_dial = λ c w. (pos 0, w);
  api_strdup = λ w. (true, w);
}

abbrev voip_stubs : VoipStubs Seen
voip_stubs = record {
  stub_login = λ options w. elim (voip_login voip_api 3 options w) [
    | none ↦ none
    | some (ret, w') ↦ some (pos 0, ret, w')
  ];
  stub_logout = λ w. (pos 0, pos 0, w);
  stub_connect_to = λ u w. (pos 0, pos 0, w);
  stub_accept_incoming = λ u w. (pos 0, pos 0, u, w);
  stub_disconnect = λ w. (pos 0, pos 0, w);
  stub_still_logged_in = λ s w. (pos 0, pos 0, s, w);
  stub_dial = λ c w. (pos 0, pos 0, w);
}

abbrev delivers : DeliversLogin voip_api 3 voip_stubs
delivers = record { login_delivered = λ o w. refl }

exec_voip_login_delivers_example :
    exec_voip_login voip_stubs
      (codes "voip-login" ∷ codes "sip" ∷ codes "5061" ∷ codes "me" ∷ codes "pw" ∷ [])
      []
    ≡ some (ended (voip_api.api_login (codes "sip") 5060 (codes "me") (codes "pw") 0 []))
unfolding strtoul skip_spaces is_space
exec_voip_login_delivers_example =
    exec_voip_login_delivers voip_api 3 voip_stubs delivers (codes "voip-login") (codes "sip")
      (codes "5061") (codes "me") (codes "pw") [] 5061 [] refl (omega arith)
      (refl, (refl, (refl, tt))) (refl, (refl, tt)) (refl, (refl, tt)) (omega arith) (omega arith)
      (omega arith)

-- A user name of 128 bytes.
abbrev long_name : List ℕ
long_name = replicate 128 b'u'

same_letter : (n : ℕ) → Text (replicate n b'u')
same_letter zero = tt
same_letter (suc n) = (refl, same_letter n)

long_name-Text : Text long_name
long_name-Text = same_letter 128

remote_voip_login_overrun_example :
    remote_voip_login voip_stubs
      (record {
        proxy = some (codes "sip");
        port = 5060;
        username = some long_name;
        password = some (codes "pw");
      })
      []
    ≡ some
        (voip_api.api_login (codes "sip") 5060 (take 128 long_name ++ codes "pw") (codes "pw") 0 [])
remote_voip_login_overrun_example =
    remote_voip_login_overrun voip_api 3 voip_stubs delivers (codes "sip") long_name (codes "pw")
      5060 [] (omega arith) (refl, (refl, (refl, tt))) long_name-Text (refl, (refl, tt))
      (omega arith) (omega arith) (omega arith)
