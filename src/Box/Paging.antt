-- ===== src/Box/Paging.antt =====
-- The pages of a listing of lij-worker/node/store.js give kvListAll every name.
use lijox.Base.{
  ℕ, zero, suc, ◌+◌, ◌≤◌, ◌<◌, ◌≡◌, refl, sym, ◌∙◌, ap, subst, ◌≢◌, inl, inr, true, false, ◌||◌,
  not, starts_with, Option, none, some, List, [], ◌∷◌, ◌++◌, arith, leb, ◌==◌, if◌then◌else◌,
  Bool-cases, is_some, length, drop, All, Text, take, take_all, take-append-drop, length-drop,
  length-append,
}
use mathlib.Core.List.{append_assoc, map-append}
use lijox.Platform.{Platform}
use lijox.Worker.Bulk.{Page, Pages, kv_list_all, kv_list_all-eq}
use lijox.Box.FileStore.{Disk}
use lijox.Box.ListOrder.{Ascending, DistinctNames, sort_entries-Ascending, filter_entries-Ascending}
use lijox.Box.Order.{text_lt, text_lt_irrefl, text_lt-asym}
use lijox.Box.FileList.{
  Listed, filter_entries, after_cursor, last_name, names_in, page_of, prefixed, file_list, collect,
  file_entries,
}

filter_entries_same :
    (s : Text) (r : List Listed)
    → All (λ (f : Listed). text_lt s f.name ≡ true) r
    → filter_entries (λ f. text_lt s f.name) r ≡ r
unfolding filter_entries
filter_entries_same s [] h = refl
filter_entries_same s (e ∷ r) (h, hs) = rw (h, filter_entries_same s r hs) refl

All-last :
    (P : Listed → Type 0) (l : List Listed) (e : Listed) (r : List Listed)
    → All P (l ++ (e ∷ r))
    → P e
All-last P [] e r (h, hs) = h
All-last P (x ∷ l) e r (h, hs) = All-last P l e r hs

rest_after :
    (l : List Listed) (e : Listed) (r : List Listed)
    → Ascending (l ++ (e ∷ r))
    → filter_entries (λ f. text_lt e.name f.name) (l ++ (e ∷ r)) ≡ r
unfolding filter_entries
rest_after [] e r (h, hs) = rw (text_lt_irrefl e.name) (filter_entries_same e.name r h)
rest_after (x ∷ l) e r (h, hs) =
    rw (text_lt-asym x.name e.name (All-last (λ f. text_lt x.name f.name ≡ true) l e r h))
      (rest_after l e r hs)

-- a cursor that is not the first name leaves what follows it
after_cursor-rest :
    (x : Listed) (l : List Listed) (e : Listed) (r : List Listed)
    → Ascending ((x ∷ l) ++ (e ∷ r))
    → after_cursor (some e.name) ((x ∷ l) ++ (e ∷ r)) ≡ r
unfolding after_cursor text_lt
after_cursor-rest x l e r (h, hs) =
    not_empty e.name refl (All-last (λ f. text_lt x.name f.name ≡ true) l e r h)
  where
    false-ne-true : false ≢ true
    false-ne-true h = cc

    not_empty :
        (t : Text)
        → e.name ≡ t
        → text_lt x.name t ≡ true
        → after_cursor (some t) ((x ∷ l) ++ (e ∷ r)) ≡ r
    not_empty [] same k = absurd (false-ne-true k)
    not_empty (c ∷ t) same k =
        subst (λ s. filter_entries (λ f. text_lt s f.name) ((x ∷ l) ++ (e ∷ r)) ≡ r) same
          (rest_after (x ∷ l) e r (h, hs))

-- a page that is cut has a last entry
record Cut (n : ℕ) (r : List Listed) : Type 0 where
  pub init : List Listed
  pub final : Listed
  pub page : take n r ≡ init ++ (final ∷ [])
  pub shorter : length init + 1 ≡ n
  pub named : last_name (take n r) ≡ some final.name

cut : (n : ℕ) (r : List Listed) → 0 < n → n ≤ length r → Cut n r
cut zero r h k = absurd (omega arith)
cut (suc n) [] h k = absurd (omega arith)
cut (suc zero) (x ∷ r) h k = record {
  init = [];
  final = x;
  page = refl;
  shorter = omega arith;
  named = refl;
}
cut (suc (suc n)) (x ∷ []) h k = absurd (omega arith)
cut (suc (suc n)) (x ∷ y ∷ r) h k =
    let c = cut (suc n) (y ∷ r) (omega arith) (omega arith) in
    record {
      init = x ∷ c.init;
      final = c.final;
      page = ap (◌∷◌ x) c.page;
      shorter = omega (arith, c.shorter);
      named = c.named;
    }

length-names_in : (l : List Listed) → length (names_in l) ≡ length l
length-names_in [] = refl
length-names_in (e ∷ l) = omega (arith, length-names_in l)

after_cursor-nonempty :
    (l : List Listed) (e : Listed) (r : List Listed)
    → 0 < length l
    → Ascending (l ++ (e ∷ r))
    → after_cursor (some e.name) (l ++ (e ∷ r)) ≡ r
after_cursor-nonempty [] e r h sorted = absurd (omega arith)
after_cursor-nonempty (x ∷ l) e r h sorted = after_cursor-rest x l e r sorted

module _ (limit : ℕ) (es : List Listed) (wide : 100 ≤ limit) (sorted : Ascending es) where
  -- the page of what is left after a cursor
  abbrev page_at : List Listed → Page
  page_at r = record {
    names = names_in (take limit r);
    complete = length (take limit r) == length r;
    cursor = if length (take limit r) == length r then none else last_name (take limit r);
  }

  page_of-eq :
      (cursor : Option Text) (r : List Listed)
      → after_cursor cursor es ≡ r
      → page_of limit es cursor ≡ page_at r
  unfolding page_of
  page_of-eq cursor r here = ap page_at here

  page_of_short :
      (cursor : Option Text) (r : List Listed)
      → after_cursor cursor es ≡ r
      → length r ≤ limit
      → Pages (page_of limit es) cursor (names_in r)
  page_of_short cursor r here short =
      let page : page_of limit es cursor
          ≡ record { names = names_in r; complete = true; cursor = none } =
        page_of-eq cursor r here ∙ rw (take_all limit r short, same (length r)) refl in
      subst (Pages (page_of limit es) cursor) (ap (λ (q : Page). q.names) page) (
        Pages.last
          (subst (λ (q : Page). (q.complete || not (is_some q.cursor)) ≡ true) (sym page) refl))
    where
      same : (n : ℕ) → (n == n) ≡ true
      same n = ground arith

  -- the page that is cut, and what follows it
  page_of_long :
      (cursor : Option Text) (r : List Listed) (c : Cut limit r)
      → after_cursor cursor es ≡ r
      → limit < length r
      → page_of limit es cursor
        ≡ record { names = names_in (take limit r); complete = false; cursor = some c.final.name }
  page_of_long cursor r c here long = page_of-eq cursor r here ∙ rw (other, c.named) refl
    where
      apart : (a b : ℕ) → a < b → (a == b) ≡ false
      apart a b h = ground arith

      full : length (take limit r) ≡ limit
      full = omega (arith, ap length c.page, length-append c.init (c.final ∷ []), c.shorter)

      other : (length (take limit r) == length r) ≡ false
      other = apart (length (take limit r)) (length r) (omega (arith, full))

  cursor_rest :
      (pre r : List Listed) (c : Cut limit r)
      → es ≡ pre ++ r
      → after_cursor (some c.final.name) es ≡ drop limit r
  cursor_rest pre r c parts =
      subst (λ l. after_cursor (some c.final.name) l ≡ drop limit r) (sym shape)
        (after_cursor-nonempty (pre ++ c.init) c.final (drop limit r)
          (omega (arith, length-append pre c.init, c.shorter)) (subst Ascending shape sorted))
    where
      shape : es ≡ (pre ++ c.init) ++ (c.final ∷ drop limit r)
      shape =
          parts
          ∙ ap (λ l. pre ++ l)
              (sym (take-append-drop limit r)
                ∙ ap (λ l. l ++ drop limit r) c.page
                ∙ append_assoc c.init (c.final ∷ []) (drop limit r))
          ∙ sym (append_assoc pre c.init (c.final ∷ drop limit r))

  paged :
      (fuel : ℕ) (cursor : Option Text) (pre r : List Listed)
      → es ≡ pre ++ r
      → after_cursor cursor es ≡ r
      → length r ≤ fuel
      → Pages (page_of limit es) cursor (names_in r)
  paged zero cursor pre r parts here few = page_of_short cursor r here (omega arith)
  paged (suc fuel) cursor pre r parts here few = elim (Bool-cases (leb (length r) limit)) [
    | inl short ↦ page_of_short cursor r here (ground (arith, short))
    | inr long ↦
        let c = cut limit r (omega arith) (ground (arith, long)) in
        let page = page_of_long cursor r c here (ground (arith, long)) in
        let later =
          paged fuel (some c.final.name) (pre ++ take limit r) (drop limit r)
            (parts
              ∙ ap (λ l. pre ++ l) (sym (take-append-drop limit r))
              ∙ sym (append_assoc pre (take limit r) (drop limit r)))
            (cursor_rest pre r c parts) (omega (arith, length-drop limit r)) in
        subst (Pages (page_of limit es) cursor)
          (ap (λ (q : Page). q.names ++ names_in (drop limit r)) page
            ∙ sym (map-append (λ (e : Listed). e.name) (take limit r) (drop limit r))
            ∙ ap names_in (take-append-drop limit r))
          (Pages.more
            (subst (λ (q : Page). (q.complete || not (is_some q.cursor)) ≡ false) (sym page) refl)
            (subst (λ (q : Page). 100 ≤ length q.names) (sym page)
              (omega (
                arith,
                length-names_in (take limit r),
                ap length c.page,
                length-append c.init (c.final ∷ []),
                c.shorter,
              )))
            (subst (λ (q : Page). Pages (page_of limit es) q.cursor (names_in (drop limit r)))
              (sym page) later))
  ]

-- Where no two of the live files have one name, kvListAll over the pages of the file store returns the
-- first 5000 names that begin with a prefix, in the order of the listing, all of them where there are no
-- more.
pub kv_list_all-file_list :
    (p : Platform) (now : ℕ) (d : Disk) (prefix : Text)
    → DistinctNames (collect p now d.values d).1
    → kv_list_all (file_list p now d prefix) ≡ take 5000 (names_in (prefixed p now d prefix))
unfolding file_list after_cursor prefixed file_entries
kv_list_all-file_list p now d prefix distinct =
    let es = prefixed p now d prefix in
    let sorted : Ascending es =
      filter_entries-Ascending (λ e. starts_with e.name prefix) (file_entries p now d).1
        (sort_entries-Ascending (collect p now d.values d).1 distinct) in
    kv_list_all-eq (file_list p now d prefix) (names_in es)
      (paged 1000 es (omega arith) sorted (length es) none [] es refl refl (omega arith))
