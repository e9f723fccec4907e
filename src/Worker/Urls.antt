-- ===== src/Worker/Urls.antt =====
-- The addresses that a registration of lij-worker/src/index.js may carry: FILTER_URL_RE, RELAY_URL_RE
-- and cleanFilterUrl.
use lijox.Base.{
  ℕ, ◌≤◌, ◌≡◌, refl, sym, ◌∙◌, ap, subst, ◌≢◌, ◌↔◌, inl, inr, Bool, true, false, ◌&&◌, ◌||◌, not,
  Option, none, some, [], ◌∷◌, ◌++◌, arith, leb, ◌==◌, if◌then◌else◌, Bool-cases, &&-eq-true,
  length, Text, codes, is_digit, is_alnum, Json, null, str, json_string, true-ne-false,
}
use lijox.Worker.Regex.{
  Regex, unit, seq, star, literal, optional, one_to, is_match, nullable, Matches, is_match_iff,
}

-- [A-Za-z0-9.-], and [A-Za-z0-9._~\/-]
abbrev pub is_host_char : ℕ → Bool
is_host_char c = is_alnum c || (c == 46 || c == 45)

abbrev pub is_path_char : ℕ → Bool
is_path_char c = is_alnum c || (c == 46 || (c == 95 || (c == 126 || (c == 47 || c == 45))))

-- the pattern after a scheme: a host, an optional :port, an optional path
abbrev pub address_re : Text → Regex
address_re scheme = seq (literal scheme) (
    seq (unit is_alnum) (
      seq (star (unit is_host_char)) (
        seq (optional (seq (literal (codes ":")) (one_to 5 (unit is_digit))))
          (optional (seq (literal (codes "/")) (star (unit is_path_char)))))))

-- FILTER_URL_RE and RELAY_URL_RE
abbrev pub filter_url_re : Regex
filter_url_re = address_re (codes "https://")

abbrev pub relay_url_re : Regex
relay_url_re = address_re (codes "wss://")

-- t.endsWith('/')
unfoldable pub ends_with_slash : Text → Bool
ends_with_slash [] = false
ends_with_slash (c ∷ []) = c == 47
ends_with_slash (c ∷ d ∷ t) = ends_with_slash (d ∷ t)

-- t.length > 200 || t.endsWith('/') || !re.test(t), negated
unfoldable pub is_address : Regex → Text → Bool
unfolding is_match
is_address re t = leb (length t) 200 && (not (ends_with_slash t) && is_match re t)

-- undefined, null or ''
abbrev pub is_blank : Option Json → Bool
is_blank none = true
is_blank (some null) = true
is_blank (some (str [])) = true
is_blank (some _) = false

-- what a cleaner returns: undefined (refused), null (not offered), or a value
pub data Cleaned {ℓ} (A : Type ℓ) : Type ℓ where
  refused absent : Cleaned A
  clean : A → Cleaned A

abbrev pub clean_text : Text → Cleaned Text
clean_text t = if is_address filter_url_re t then clean t else refused

abbrev pub string_of : Option Json → Text
string_of none = codes "undefined"
string_of (some j) = json_string j

-- cleanFilterUrl
unfoldable pub clean_filter_url : Option Json → Cleaned Text
unfolding is_address
clean_filter_url v = if is_blank v then absent else clean_text (string_of v)

-- the condition on an address, without the code
pub record IsAddress (re : Regex) (t : Text) : Type 0 where
  pub short : length t ≤ 200
  pub open_end : (u : Text) → t ≢ u ++ codes "/"
  pub shape : Matches re t

ends_with_slash-append : (u : Text) → ends_with_slash (u ++ codes "/") ≡ true
unfolding ends_with_slash
ends_with_slash-append [] = refl
ends_with_slash-append (c ∷ []) = refl
ends_with_slash-append (c ∷ d ∷ u) = ends_with_slash-append (d ∷ u)

ends_with_slash-eq-true : (t : Text) → ends_with_slash t ≡ true → (u : Text) × (t ≡ u ++ codes "/")
unfolding ends_with_slash
ends_with_slash-eq-true [] h = cc
ends_with_slash-eq-true (c ∷ []) h = ([], ground arith)
ends_with_slash-eq-true (c ∷ d ∷ t) h =
    let (u, e) = ends_with_slash-eq-true (d ∷ t) h in (c ∷ u, ap (λ (w : Text). c ∷ w) e)

not-eq-true : (b : Bool) → not b ≡ true → b ≡ false
not-eq-true b h = ground arith

clean-injective {ℓ} : {A : Type ℓ} {a b : A} → clean a ≡ clean b → a ≡ b
clean-injective h = cc

refused-ne-clean {ℓ} : {A : Type ℓ} {a : A} → refused ≢ clean a
refused-ne-clean h = cc

absent-ne-clean {ℓ} : {A : Type ℓ} {a : A} → absent ≢ clean a
absent-ne-clean h = cc

no_empty : (u : Text) → [] ≡ u → ¬ IsAddress filter_url_re u
unfolding is_match nullable
no_empty [] e a = absurd (true-ne-false (sym ((is_match_iff filter_url_re []).1 a.shape) ∙ refl))
no_empty (c ∷ u) e a = cc

le_of_leb : (a b : ℕ) → leb a b ≡ true → a ≤ b
le_of_leb a b h = ground arith

three : (a b : ℕ) (e m : Bool) → a ≤ b → e ≡ false → m ≡ true → (leb a b && (not e && m)) ≡ true
three a b e m h k l = ground arith

is_address_iff : (re : Regex) (t : Text) → (is_address re t ≡ true) ↔ IsAddress re t
unfolding is_address
is_address_iff re t = (to, from)
  where
    to : is_address re t ≡ true → IsAddress re t
    to h =
        let (short, rest) = &&-eq-true _ _ h in
        let (unslashed, shape) = &&-eq-true _ _ rest in
        record {
          short = le_of_leb (length t) 200 short;
          open_end = λ u e. true-ne-false (
              sym (ends_with_slash-append u)
              ∙ (ap ends_with_slash (sym e) ∙ not-eq-true _ unslashed));
          shape = (is_match_iff re t).0 shape;
        }

    from : IsAddress re t → is_address re t ≡ true
    from a =
        three (length t) 200 (ends_with_slash t) (is_match re t) a.short unslashed
          ((is_match_iff re t).1 a.shape)
      where
        unslashed : ends_with_slash t ≡ false
        unslashed = elim (Bool-cases (ends_with_slash t)) [
          | inl h ↦ let (u, e) = ends_with_slash-eq-true t h in absurd (a.open_end u e)
          | inr h ↦ h
        ]

if_clean : (t : Text) (b : Bool) → b ≡ true → (if b then clean t else refused) ≡ clean t
if_clean t true h = refl
if_clean t false h = cc

clean_text-eq :
    (t u : Text) (b : Bool)
    → is_address filter_url_re t ≡ b
    → (if b then clean t else refused) ≡ clean u
    → (t ≡ u) × (is_address filter_url_re t ≡ true)
clean_text-eq t u true e h = (clean-injective h, e)
clean_text-eq t u false e h = absurd (refused-ne-clean h)

-- cleanFilterUrl returns a value exactly for an address: of at most 200 characters, not ending in a
-- slash, in the shape of FILTER_URL_RE; and the value is the address as it was given.
pub clean_filter_url_iff :
    (t u : Text)
    → (clean_filter_url (some (str t)) ≡ clean u) ↔ ((t ≡ u) × IsAddress filter_url_re u)
unfolding clean_filter_url json_string
clean_filter_url_iff [] u = (λ h. absurd (absent-ne-clean h), λ h. absurd (no_empty u h.0 h.1))
clean_filter_url_iff (c ∷ t) u = (to, from)
  where
    to :
        (if is_address filter_url_re (c ∷ t) then clean (c ∷ t) else refused) ≡ clean u
        → (c ∷ t ≡ u) × IsAddress filter_url_re u
    to h =
        let (same, ok) = clean_text-eq (c ∷ t) u _ refl h in
        (
          same,
          (is_address_iff filter_url_re u).0
              (subst (λ w. is_address filter_url_re w ≡ true) same ok),
        )

    from :
        (c ∷ t ≡ u) × IsAddress filter_url_re u
        → (if is_address filter_url_re (c ∷ t) then clean (c ∷ t) else refused) ≡ clean u
    from h =
        if_clean (c ∷ t) _ (
          subst (λ w. is_address filter_url_re w ≡ true) (sym h.0)
            ((is_address_iff filter_url_re u).1 h.1))
        ∙ ap clean h.0
