-- ===== src/Box/FileNames.antt =====
-- Which keys have a file of their own in the store of lij-worker/node/store.js.
use lijox.Base.{
  ℕ, ◌<◌, ◌≡◌, refl, sym, ◌∙◌, ap, subst, ◌↔◌, inl, inr, Bool, true, false, ◌&&◌, not, Option, none,
  some, [], ◌∷◌, ◌++◌, arith, ltb, leb, ◌==◌, if◌then◌else◌, Bool-cases, Option-cases, length, all,
  All, Text, codes, text_eq, text_eq_iff, none-ne-some, some-eq, true-ne-false, &&-eq-true, ==_iff,
}
use lijox.Worker.Encode.{
  code_points, utf8_point, utf8_points, text_bytes, is_surrogate, is_high, is_low,
}
use lijox.Box.FileKeys.{
  Name, split, break_colon, with_unit, is_prefix_char, checked, or_underscore, encode_rest,
  decode_bytes, decode_bytes-encode_rest,
}
use lijox.Box.FileStore.{name_eq}

pub name_eq_iff : (m n : Name) → (name_eq m n ≡ true) ↔ (m ≡ n)
name_eq_iff (a, b) (c, d) = (to, from)
  where
    to : (text_eq a c && text_eq b d) ≡ true → ◌≡◌ {A = Name} (a, b) (c, d)
    to h =
        let (h1, h2) = &&-eq-true _ _ h in λ i. ((text_eq_iff a c).0 h1 i, (text_eq_iff b d).0 h2 i)

    from : ◌≡◌ {A = Name} (a, b) (c, d) → (text_eq a c && text_eq b d) ≡ true
    from e =
        rw
          (
            (text_eq_iff a c).1 (ap (λ (x : Name). x.0) e),
            (text_eq_iff b d).1 (ap (λ (x : Name). x.1) e),
          )
          refl

pub name_eq_refl : (n : Name) → name_eq n n ≡ true
name_eq_refl n = (name_eq_iff n n).1 refl

-- A key with a directory of its own: ASCII, and with something before its first colon that is not "_",
-- the directory of the keys that have no colon.
pub record IsKey (k : Text) : Type 0 where
  pub ascii : All (λ c. c < 128) k
  pub name : Name
  pub splits : split k ≡ some name
  pub own : text_eq name.0 (codes "_") ≡ false

break_colon-eq : (k : Text) (x : Text × Text) → break_colon k ≡ some x → k ≡ x.0 ++ (58 ∷ x.1)
unfolding break_colon
break_colon-eq [] x h = absurd (none-ne-some h)
break_colon-eq (c ∷ t) x h = elim (Bool-cases (c == 58)) [
  | inl e ↦
      let same : ([], t) ≡ x = some-eq (rw e at h) in
      rw ((==_iff c 58).0 e) (ap (λ (y : Text × Text). y.0 ++ (58 ∷ y.1)) same)
  | inr e ↦ later (break_colon t) (λ y. break_colon-eq t y) (rw e at h)
]
  where
    later :
        (o : Option (Text × Text))
        → ((y : Text × Text) → o ≡ some y → t ≡ y.0 ++ (58 ∷ y.1))
        → with_unit c o ≡ some x
        → ◌≡◌ {A = Text} (c ∷ t) (x.0 ++ (58 ∷ x.1))
    later none e h = absurd (none-ne-some h)
    later (some y) e h =
        ap (◌∷◌ c) (e y refl) ∙ ap (λ (z : Text × Text). z.0 ++ (58 ∷ z.1)) (some-eq h)

if_none :
    {A : Type 0} (b : Bool) (o : Option A) {a : A} → (if b then none else o) ≡ some a → o ≡ some a
if_none true o h = absurd (none-ne-some h)
if_none false o h = h

checked-eq : (q r : Text) (n : Name) → checked q r ≡ some n → ◌≡◌ {A = Name} (q, encode_rest r) n
unfolding checked
checked-eq q r n h = some-eq (
    if_none (ltb 240 (length (encode_rest r))) _
      (if_none (not (leb 1 (length q) && all is_prefix_char q)) _ (if_none (length r == 0) _ h)))

code_points_ascii : (t : Text) → All (λ c. c < 128) t → code_points t ≡ t
unfolding code_points
code_points_ascii [] h = refl
code_points_ascii (c ∷ []) h = refl
code_points_ascii (c ∷ d ∷ t) (h, hs) =
    rw (not_high c (is_low d) h, code_points_ascii (d ∷ t) hs) refl
  where
    not_high : (c : ℕ) (b : Bool) → c < 128 → (is_high c && b) ≡ false
    not_high c b h = ground arith

utf8_points_ascii : (t : Text) → All (λ c. c < 128) t → utf8_points t ≡ t
unfolding utf8_points utf8_point
utf8_points_ascii [] h = refl
utf8_points_ascii (c ∷ t) (h, hs) = rw (not_surrogate c h, below c h, utf8_points_ascii t hs) refl
  where
    not_surrogate : (c : ℕ) → c < 128 → is_surrogate c ≡ false
    not_surrogate c h = ground arith

    below : (c : ℕ) → c < 128 → ltb c 128 ≡ true
    below c h = ground arith

ascii_wide : (t : Text) → All (λ c. c < 128) t → All (λ c. c < 65536) t
ascii_wide [] h = tt
ascii_wide (c ∷ t) (h, hs) = (omega arith, ascii_wide t hs)

-- An ASCII text is read back from its file name.
encode_rest_ascii : (t : Text) → All (λ c. c < 128) t → decode_bytes (encode_rest t) ≡ t
unfolding text_bytes
encode_rest_ascii t h =
    decode_bytes-encode_rest t (ascii_wide t h)
    ∙ ap utf8_points (code_points_ascii t h)
    ∙ utf8_points_ascii t h

All-drop : (a r : Text) (c : ℕ) → All (λ c. c < 128) (a ++ (c ∷ r)) → All (λ c. c < 128) r
All-drop [] r c (h, hs) = hs
All-drop (x ∷ a) r c (h, hs) = All-drop a r c hs

-- The name of a key with a directory of its own gives the key back.
unfoldable pub key_of_name : Name → Text
key_of_name n = n.0 ++ (58 ∷ decode_bytes n.1)

not_underscore :
    {A : Type 0} (r : Text) (n : Name)
    → ◌≡◌ {A = Name} (codes "_", encode_rest r) n
    → text_eq n.0 (codes "_") ≡ false
    → A
not_underscore r n e h =
    absurd (true-ne-false (subst (λ (m : Name). text_eq m.0 (codes "_") ≡ false) (sym e) h))

prefixed_back :
    (a r : Text) (n : Name)
    → All (λ c. c < 128) (a ++ (58 ∷ r))
    → checked (or_underscore a) r ≡ some n
    → text_eq n.0 (codes "_") ≡ false
    → key_of_name n ≡ a ++ (58 ∷ r)
unfolding key_of_name
prefixed_back [] r n h e own = not_underscore r n (checked-eq (codes "_") r n e) own
prefixed_back (c ∷ a) r n h e own =
    ap key_of_name (sym (checked-eq (c ∷ a) r n e))
    ∙ ap (λ t. (c ∷ a) ++ (58 ∷ t)) (encode_rest_ascii r (All-drop (c ∷ a) r 58 h))

pub IsKey-back : (k : Text) (key : IsKey k) → key_of_name key.name ≡ k
unfolding split
IsKey-back k key = elim (Option-cases (break_colon k)) [
  | inl e ↦
      not_underscore k key.name (checked-eq (codes "_") k key.name (rw (split, e) at key.splits))
        key.own
  | inr (x, e) ↦
      let same : k ≡ x.0 ++ (58 ∷ x.1) = break_colon-eq k x e in
      prefixed_back x.0 x.1 key.name (subst (All (λ c. c < 128)) same key.ascii)
        (rw (split, e) at key.splits) key.own
      ∙ sym same
]

-- what split asks of a directory
checked-dir :
    (q r : Text) (n : Name)
    → checked q r ≡ some n
    → (leb 1 (length n.0) && all is_prefix_char n.0) ≡ true
unfolding checked
checked-dir q r n h =
    subst (λ (m : Name). (leb 1 (length m.0) && all is_prefix_char m.0) ≡ true) (checked-eq q r n h)
      (elim (Bool-cases (leb 1 (length q) && all is_prefix_char q)) [
        | inl e ↦ e
        | inr e ↦ absurd (none-ne-some (rw e at (if_none (length r == 0) _ h)))
      ])

pub IsKey-dir :
    (k : Text) (key : IsKey k) → (leb 1 (length key.name.0) && all is_prefix_char key.name.0) ≡ true
unfolding split
IsKey-dir k key = elim (Option-cases (break_colon k)) [
  | inl e ↦ checked-dir (codes "_") k key.name (rw (split, e) at key.splits)
  | inr (x, e) ↦ checked-dir (or_underscore x.0) x.1 key.name (rw (split, e) at key.splits)
]

-- Two such keys have the same name only if they are the same.
pub name_eq-text_eq : (k j : Text) (a : IsKey k) (b : IsKey j) → name_eq a.name b.name ≡ text_eq k j
name_eq-text_eq k j a b = elim (Bool-cases (text_eq k j)) [
  | inl e ↦ rw e (
      (name_eq_iff a.name b.name).1
        (some-eq (sym a.splits ∙ ap split ((text_eq_iff k j).0 e) ∙ b.splits)))
  | inr e ↦ elim (Bool-cases (name_eq a.name b.name)) [
    | inl m ↦
        let same : k ≡ j =
          sym (IsKey-back k a)
          ∙ ap key_of_name ((name_eq_iff a.name b.name).0 m)
          ∙ IsKey-back j b in
        absurd (true-ne-false (sym ((text_eq_iff k j).1 same) ∙ e))
    | inr m ↦ rw (m, e) refl
  ]
]
