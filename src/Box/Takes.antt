-- ===== src/Box/Takes.antt =====
-- Which keys the file store of lij-worker/node/store.js takes: split does not throw on them.
use lijox.Base.{
  ℕ, ◌<◌, ◌≡◌, refl, sym, ◌∙◌, ap, subst, true, false, some, [], ◌∷◌, ◌++◌, arith, ltb, leb, ◌==◌,
  length, all, All, Text, codes, text_eq, &&-eq-true,
}
use lijox.Box.FileKeys.{
  Name, split, break_colon, checked, or_underscore, is_prefix_char, encode_rest,
}
use lijox.Box.FileNames.{IsKey}

-- A key in a directory of its own: its prefix, of letters, digits, _ and -, is not "_", and behind its
-- first colon stands ASCII text, of at most 240 characters as a file name.
pub record FileKey (k : Text) : Type 0 where
  pub prefix : Text
  pub rest : Text
  pub whole : prefix ++ (58 ∷ rest) ≡ k
  pub has_prefix : leb 1 (length prefix) ≡ true
  pub prefix_chars : all is_prefix_char prefix ≡ true
  pub own : text_eq prefix (codes "_") ≡ false
  pub has_rest : (length rest == 0) ≡ false
  pub ascii : All (λ c. c < 128) rest
  pub short : ltb 240 (length (encode_rest rest)) ≡ false

-- the file of a key
abbrev pub file_of : {k : Text} → FileKey k → Name
file_of key = (key.prefix, encode_rest key.rest)

prefix_char-plain : (c : ℕ) → is_prefix_char c ≡ true → ((c == 58) ≡ false) × (c < 128)
prefix_char-plain c h = (ground arith, ground arith)

break_colon-prefix :
    (q r : Text) → all is_prefix_char q ≡ true → break_colon (q ++ (58 ∷ r)) ≡ some (q, r)
unfolding break_colon
break_colon-prefix [] r h = refl
break_colon-prefix (c ∷ q) r h =
    let (own, later) = &&-eq-true _ _ h in
    rw ((prefix_char-plain c own).0, break_colon-prefix q r later) refl

prefix_ascii :
    (q r : Text)
    → all is_prefix_char q ≡ true
    → All (λ c. c < 128) r
    → All (λ c. c < 128) (q ++ (58 ∷ r))
prefix_ascii [] r h a = (omega arith, a)
prefix_ascii (c ∷ q) r h a =
    let (own, later) = &&-eq-true _ _ h in ((prefix_char-plain c own).1, prefix_ascii q r later a)

or_underscore-same : (q : Text) → leb 1 (length q) ≡ true → or_underscore q ≡ q
or_underscore-same [] h = cc
or_underscore-same (c ∷ q) h = refl

-- split does not throw on such a key
pub split-FileKey : (k : Text) (key : FileKey k) → split k ≡ some (file_of key)
unfolding split checked
split-FileKey k key =
    ap split (sym key.whole)
    ∙ rw
        (
          split,
          break_colon-prefix key.prefix key.rest key.prefix_chars,
          or_underscore-same key.prefix key.has_prefix,
          checked,
          key.has_rest,
          key.has_prefix,
          key.prefix_chars,
          key.short,
        )
        refl

pub FileKey-IsKey : (k : Text) → FileKey k → IsKey k
FileKey-IsKey k key = record {
  ascii =
      subst (All (λ c. c < 128)) key.whole
        (prefix_ascii key.prefix key.rest key.prefix_chars key.ascii);
  name = file_of key;
  splits = split-FileKey k key;
  own = key.own;
}

pub FileKey-file : (k : Text) (key : FileKey k) → (FileKey-IsKey k key).name ≡ file_of key
unfolding FileKey-IsKey
FileKey-file k key = refl
