-- ===== src/Client/Poll.antt =====
-- src/rcrpc-client/rcrpc-client.c: remote_exit beside the thread that polls. The thread and the caller
-- of remote_exit take their steps in any order; a step is a read or a write of `done`, or a call.
use rcrpc.Base.{ℕ, suc, ◌≡◌, Bool, true, false, if◌then◌else◌, ℤ, is_neg, neg, eq_ℤ, etimedout}

-- Where the thread stands: before the test of `done`, before rpc_client_poll, before
-- rpc_client_process_events, and behind its loop.
pub data ThreadAt : Type 0 where
  at_test : ThreadAt
  at_poll : ThreadAt
  at_events : ThreadAt
  thread_ended : ThreadAt

-- Where the caller stands: before remote_exit, before pthread_join, before rpc_client_free, behind it.
pub data CallerAt : Type 0 where
  before_exit : CallerAt
  at_join : CallerAt
  at_free : CallerAt
  exited : CallerAt

-- The client, shared by both: `done`, and whether the memory was released.
pub record Shared : Type 0 where
  pub thread : ThreadAt
  pub caller : CallerAt
  pub done : Bool
  pub released : Bool

-- What a poll leaves in `done`.
unfoldable pub done_after : ℤ → Bool → Bool
done_after ret done = if is_neg ret then if eq_ℤ ret (neg etimedout) then done else true else done

-- Where the thread goes from a poll.
abbrev pub after_poll : ℤ → ThreadAt
after_poll ret = if is_neg ret then at_test else at_events

pub data ThreadStep : Shared → Shared → Type 0 where
  go_on :
      (s : Shared)
      → s.thread ≡ at_test
      → s.done ≡ false
      → ThreadStep s (record s { thread = at_poll })
  stop :
      (s : Shared)
      → s.thread ≡ at_test
      → s.done ≡ true
      → ThreadStep s (record s { thread = thread_ended })
  poll :
      (s : Shared) (ret : ℤ)
      → s.thread ≡ at_poll
      → ThreadStep s (record s { thread = after_poll ret; done = done_after ret s.done })
  events :
      (s : Shared) (ret : ℤ) → s.thread ≡ at_events → ThreadStep s (record s { thread = at_test })

pub data CallerStep : Shared → Shared → Type 0 where
  set_done :
      (s : Shared)
      → s.caller ≡ before_exit
      → CallerStep s (record s { caller = at_join; done = true })
  join :
      (s : Shared)
      → s.caller ≡ at_join
      → s.thread ≡ thread_ended
      → CallerStep s (record s { caller = at_free })
  free :
      (s : Shared)
      → s.caller ≡ at_free
      → CallerStep s (record s { caller = exited; released = true })

-- A run of `n` steps of either.
pub data Run (s : Shared) : ℕ → Shared → Type 0 where
  here : Run s 0 s
  by_thread : {n : ℕ} {t u : Shared} → Run s n t → ThreadStep t u → Run s (suc n) u
  by_caller : {n : ℕ} {t u : Shared} → Run s n t → CallerStep t u → Run s (suc n) u

-- The state behind remote_init, which has started the thread.
abbrev pub started : Shared
started = record { thread = at_test; caller = before_exit; done = false; released = false }
