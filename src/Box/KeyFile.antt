-- ===== src/Box/KeyFile.antt =====
-- loadOrMakeKey of lij-worker/node/server.js: the box's mirror key, born at the first boot. `is_key` is
-- secp.utils.isValidPrivateKey and `random` what secp.utils.randomPrivateKey returns. A file that is
-- there can be read.
use lijox.Base.{
  ℕ, ◌<◌, ◌≡◌, refl, ap, subst, inl, inr, Bool, true, false, ◌&&◌, Option, none, some, [], ◌∷◌,
  ◌++◌, arith, if◌then◌else◌, Bool-cases, none-ne-some, &&-eq-true, length, all, All, Text, Bytes,
  is_lower_hex, is_lower_hex_text,
}
use mathlib.Core.Option.{some-injective}
use lijox.Worker.Hex.{hex_to_bytes, bytes_to_hex, hex_to_bytes-bytes_to_hex}
use lijox.Box.Server.{is_space, trim, trim_start, trim_end}
use lijox.Box.Signed.{length-bytes_to_hex, bytes_to_hex_is_lower}

-- the two files: mirror.key and mirror.key.tmp
pub record KeyFiles : Type 0 where
  pub key : Option Text
  pub temp : Option Text

module _ (is_key : Bytes → Bool) where
  -- isValidPrivateKey(Buffer.from(hex, 'hex')), of a text of hex digits
  abbrev pub valid_hex : Text → Bool
  valid_hex hex = elim (hex_to_bytes hex) [ none ↦ false | some b ↦ is_key b ]

  -- what is read from the file; `none` is an Error
  unfoldable pub read_key : Text → Option Text
  unfolding trim_start trim_end
  read_key t = if is_lower_hex_text 64 (trim t) && valid_hex (trim t) then some (trim t) else none

  -- fs.writeFile of the new key
  unfoldable pub write_temp : Bytes → KeyFiles → KeyFiles
  write_temp random d = record d { temp = some (bytes_to_hex random ++ (10 ∷ [])) }

  -- fs.rename of the temporary file
  unfoldable pub rename_temp : KeyFiles → KeyFiles
  rename_temp d = record { key = d.temp; temp = none }

  -- loadOrMakeKey
  unfoldable pub load_or_make_key : Bytes → KeyFiles → KeyFiles × Option Text
  unfolding read_key write_temp rename_temp
  load_or_make_key random d = elim d.key [
    | some t ↦ (d, read_key t)
    | none ↦ (rename_temp (write_temp random d), some (bytes_to_hex random))
  ]

  hex_is_no_space : (c : ℕ) → is_lower_hex c ≡ true → is_space c ≡ false
  hex_is_no_space c h = ground arith

  trim_end_hex : (t : Text) → all is_lower_hex t ≡ true → trim_end (t ++ (10 ∷ [])) ≡ t
  unfolding trim_end
  trim_end_hex [] h = refl
  trim_end_hex (c ∷ []) h =
      rw (trim_end, hex_is_no_space c (&&-eq-true (is_lower_hex c) true h).0) refl
  trim_end_hex (c ∷ d ∷ t) h =
      rw (trim_end, trim_end_hex (d ∷ t) (&&-eq-true (is_lower_hex c) _ h).1) refl

  trim_hex : (t : Text) → all is_lower_hex t ≡ true → trim (t ++ (10 ∷ [])) ≡ t
  unfolding trim_start trim_end
  trim_hex [] h = refl
  trim_hex (c ∷ t) h =
      rw (trim_start, hex_is_no_space c (&&-eq-true (is_lower_hex c) _ h).0)
        (trim_end_hex (c ∷ t) h)

  -- A key is 64 hex digits of a valid private key.
  abbrev pub IsMirrorKey : Text → Type 0
  IsMirrorKey hex = (is_lower_hex_text 64 hex && valid_hex hex) ≡ true

  module _ (random : Bytes) (size : length random ≡ 32) (bytes : All (λ b. b < 256) random) where
    new_is_key : is_key random ≡ true → IsMirrorKey (bytes_to_hex random)
    new_is_key valid =
        rw
          (
            length-bytes_to_hex random,
            size,
            bytes_to_hex_is_lower random bytes,
            valid_hex,
            hex_to_bytes-bytes_to_hex random bytes,
            valid,
          )
          refl

    read_key-new :
        is_key random ≡ true
        → read_key (bytes_to_hex random ++ (10 ∷ [])) ≡ some (bytes_to_hex random)
    unfolding read_key
    read_key-new valid =
        rw (trim_hex (bytes_to_hex random) (bytes_to_hex_is_lower random bytes), new_is_key valid)
          refl

  read_key-IsMirrorKey : (t hex : Text) → read_key t ≡ some hex → IsMirrorKey hex
  unfolding read_key
  read_key-IsMirrorKey t hex h =
      elim (Bool-cases (is_lower_hex_text 64 (trim t) && valid_hex (trim t))) [
        | inl e ↦ subst IsMirrorKey (some-injective _ _ (rw e at h)) e
        | inr e ↦ absurd (none-ne-some (rw e at h))
      ]

  -- Where the package's new private key is 32 bytes and valid: a key that a boot gets is 64 hex digits
  -- of a valid one, every boot after it gets that same key and writes nothing, whatever key the package
  -- would make then, and a stop before the new file is renamed changes nothing of what the next boot
  -- gets.
  pub load_or_make_key-stays :
      (random later : Bytes) (d : KeyFiles) {d' : KeyFiles} {hex : Text}
      → length random ≡ 32
      → All (λ b. b < 256) random
      → is_key random ≡ true
      → load_or_make_key random d ≡ (d', some hex)
      → IsMirrorKey hex
        × (load_or_make_key later d' ≡ (d', some hex))
        × ((load_or_make_key later (write_temp random d)).1 ≡ (load_or_make_key later d).1)
  unfolding load_or_make_key write_temp rename_temp
  load_or_make_key-stays random later d {d'} {hex} size bytes valid h = of_key d.key d.temp h
    where
      kept_with :
          (f : KeyFiles) {o : Option Text} {x : Text}
          → o ≡ some x
          → ◌≡◌ {A = KeyFiles × Option Text} (f, o) (f, some x)
      kept_with f e = λ i. (f, e i)

      of_key :
          (k t : Option Text)
          → load_or_make_key random (record { key = k; temp = t }) ≡ (d', some hex)
          → IsMirrorKey hex
            × (load_or_make_key later d' ≡ (d', some hex))
            × ((load_or_make_key later (write_temp random (record { key = k; temp = t }))).1
                ≡ (load_or_make_key later (record { key = k; temp = t })).1)
      of_key none t h =
          let made : bytes_to_hex random ≡ hex = some-injective _ _ (ap (λ r. r.1) h) in
          let files : record { key = some (bytes_to_hex random ++ (10 ∷ [])); temp = none } ≡ d' =
            ap (λ r. r.0) h in
          (
            subst IsMirrorKey made (new_is_key random size bytes valid),
            rw (← files, ← made)
                (kept_with (record { key = some (bytes_to_hex random ++ (10 ∷ [])); temp = none })
                  (read_key-new random size bytes valid)),
            refl,
          )
      of_key (some k) t h =
          let kept : record { key = some k; temp = t } ≡ d' = ap (λ r. r.0) h in
          let read : read_key k ≡ some hex = ap (λ r. r.1) h in
          (
            read_key-IsMirrorKey k hex read,
            rw (← kept) (kept_with (record { key = some k; temp = t }) read),
            refl,
          )
