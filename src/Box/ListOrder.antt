-- ===== src/Box/ListOrder.antt =====
-- The entries that lij-worker/node/store.js lists stand in ascending order of their names.
use lijox.Base.{
  ◌≡◌, inl, inr, Bool, true, false, List, [], ◌∷◌, Bool-cases, All, map-All, text_eq, text_eq-sym,
}
use lijox.Box.Order.{text_lt, text_lt_trans, text_lt-total}
use lijox.Box.FileList.{Listed, filter_entries, insert_entry, sort_entries}

-- names in strictly ascending order
abbrev pub Ascending : List Listed → Type 0
Ascending [] = Unit
Ascending (e ∷ es) = All (λ (f : Listed). text_lt e.name f.name ≡ true) es × Ascending es

-- no two entries have one name
abbrev pub DistinctNames : List Listed → Type 0
DistinctNames [] = Unit
DistinctNames (e ∷ es) = All (λ (f : Listed). text_eq e.name f.name ≡ false) es × DistinctNames es

insert_entry-All :
    (P : Listed → Type 0) (e : Listed) (es : List Listed)
    → P e
    → All P es
    → All P (insert_entry e es)
unfolding insert_entry
insert_entry-All P e [] h hs = (h, tt)
insert_entry-All P e (x ∷ xs) h (hx, hs) = elim (Bool-cases (text_lt x.name e.name)) [
  | inl b ↦ rw b (hx, insert_entry-All P e xs h hs)
  | inr b ↦ rw b (h, (hx, hs))
]

insert_entry-Ascending :
    (e : Listed) (es : List Listed)
    → All (λ (f : Listed). text_eq e.name f.name ≡ false) es
    → Ascending es
    → Ascending (insert_entry e es)
unfolding insert_entry
insert_entry-Ascending e [] h a = (tt, tt)
insert_entry-Ascending e (x ∷ xs) (ne, h) (before, a) = elim (Bool-cases (text_lt x.name e.name)) [
  | inl b ↦ rw b (insert_entry-All _ e xs b before, insert_entry-Ascending e xs h a)
  | inr b ↦
      let first = text_lt-total x.name e.name (text_eq-sym e.name x.name ne) b in
      rw b ((first, map-All xs (λ f. text_lt_trans e.name x.name f.name first) before), (before, a))
]

sort_entries-All : (P : Listed → Type 0) (es : List Listed) → All P es → All P (sort_entries es)
unfolding sort_entries
sort_entries-All P [] h = tt
sort_entries-All P (e ∷ es) (h, hs) =
    insert_entry-All P e (sort_entries es) h (sort_entries-All P es hs)

pub sort_entries-Ascending : (es : List Listed) → DistinctNames es → Ascending (sort_entries es)
unfolding sort_entries
sort_entries-Ascending [] h = tt
sort_entries-Ascending (e ∷ es) (ne, h) =
    insert_entry-Ascending e (sort_entries es) (sort_entries-All _ es ne)
      (sort_entries-Ascending es h)

filter_entries-All :
    (P : Listed → Type 0) (test : Listed → Bool) (es : List Listed)
    → All P es
    → All P (filter_entries test es)
unfolding filter_entries
filter_entries-All P test [] h = tt
filter_entries-All P test (e ∷ es) (h, hs) = elim (Bool-cases (test e)) [
  | inl b ↦ rw b (h, filter_entries-All P test es hs)
  | inr b ↦ rw b (filter_entries-All P test es hs)
]

pub filter_entries-Ascending :
    (test : Listed → Bool) (es : List Listed) → Ascending es → Ascending (filter_entries test es)
unfolding filter_entries
filter_entries-Ascending test [] h = tt
filter_entries-Ascending test (e ∷ es) (h, hs) = elim (Bool-cases (test e)) [
  | inl b ↦ rw b (filter_entries-All _ test es h, filter_entries-Ascending test es hs)
  | inr b ↦ rw b (filter_entries-Ascending test es hs)
]
