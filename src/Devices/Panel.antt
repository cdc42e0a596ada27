-- ===== src/Devices/Panel.antt =====
-- src/rcrpc/backlight.c and src/rcrpc/smartcard.c with their functions in src/rcrpc-client
-- (backlight.c, and remote_card_get_type of card.c).
use rcrpc.Base.{ℕ, ◌+◌, ◌%◌, Bool, if◌then◌else◌, ◌==◌, ℤ, pos, is_neg, pos_part, bit_and}

-- The calls of the platform library.
pub record BacklightApi (W : Type 0) : Type 0 where
  pub enable : Bool → W → ℤ × W
  pub set : ℕ → W → ℤ × W
  pub get : W → ℤ × W

module _ {W : Type 0} (api : BacklightApi W) where
  unfoldable pub backlight_enable : ℕ → W → ℤ × W
  backlight_enable flags w = api.enable (bit_and flags 1 == 1) w

  abbrev pub backlight_set : ℕ → W → ℤ × W
  backlight_set brightness w = api.set brightness w

  -- The level that the platform answers goes to `*brightness`, a `uint8_t`.
  unfoldable pub backlight_get : ℕ → W → ℤ × ℕ × W
  backlight_get brightness w =
      let (ret, w') = api.get w in
      if is_neg ret then (ret, brightness, w') else (pos 0, pos_part ret % 256, w')

-- The stubs of the client.
pub record BacklightStubs (W : Type 0) : Type 0 where
  pub stub_enable : ℕ → W → ℤ × ℤ × W
  pub stub_set : ℕ → W → ℤ × ℤ × W
  pub stub_get : ℕ → W → ℤ × ℤ × ℕ × W

module _ {W : Type 0} (stubs : BacklightStubs W) where
  unfoldable pub remote_backlight_enable : ℕ → W → ℤ × W
  remote_backlight_enable flags w =
      let (err, ret, w') = stubs.stub_enable flags w in (if is_neg err then err else ret, w')

  unfoldable pub remote_backlight_get : ℕ → W → ℤ × ℕ × W
  remote_backlight_get brightness w =
      let (err, ret, level, w') = stubs.stub_get brightness w in
      (if is_neg err then err else ret, level, w')

  unfoldable pub remote_backlight_set : ℕ → W → ℤ × W
  remote_backlight_set brightness w =
      let (err, ret, w') = stubs.stub_set brightness w in (if is_neg err then err else ret, w')

-- `enum smartcard_type` of the platform library: the types that smartcard.c names, and any other.
pub data SmartcardType : Type 0 where
  type_i2c : SmartcardType
  type_t0 : SmartcardType
  type_t1 : SmartcardType
  other_type : SmartcardType

-- The values of `enum card_type` in protocol.xml, which count from the first one, CARD_TYPE_NONE.
abbrev pub type_to_rpc : ℕ → SmartcardType → ℤ
type_to_rpc first type_i2c = pos (first + 5)
type_to_rpc first type_t0 = pos (first + 3)
type_to_rpc first type_t1 = pos (first + 4)
type_to_rpc first other_type = pos (first + 1)

-- The platform's answer on the type of a card, and the handler: the result and `*typep`.
unfoldable pub card_get_type : {W : Type 0} → (W → ℤ × SmartcardType × W) → ℕ → ℤ → W → ℤ × ℤ × W
card_get_type get_type first typep w =
    let (ret, card, w') = get_type w in
    if is_neg ret then (ret, typep, w') else (ret, type_to_rpc first card, w')

-- Over a stub that is given what the client initialises the type to.
unfoldable pub remote_card_get_type : {W : Type 0} → (ℤ → W → ℤ × ℤ × ℤ × W) → ℕ → ℤ → W → ℤ × ℤ × W
remote_card_get_type stub first typep w =
    let (err, ret, card, w') = stub (pos (first + 1)) w in
    if is_neg err then (err, typep, w') else (ret, card, w')
