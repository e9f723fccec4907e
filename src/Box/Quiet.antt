-- ===== src/Box/Quiet.antt =====
-- What holds of the journal of lij-worker/node/reconcile.js after any ticks.
use lijox.Base.{
  ℕ, ◌+◌, ◌<◌, ◌≡◌, refl, sym, ◌∙◌, ap, subst, ◌⊎◌, inl, inr, Bool, true, false, ◌||◌, not, List,
  ◌==◌, [], ◌∷◌, ◌++◌, arith, Bool-cases, Text, text_eq, take,
}
use lijox.Box.Reconcile.{Counts}
use lijox.Box.Ticker.{
  CycleEnd, moved, failed, Line, counted, first_done, error, Ticker, is_news, note_error, end_tick,
  begin_tick, success_lines, any_moved, line_if, Journal, new_journal, one_if, Step, Steps,
}

-- an error that was written, with its time in ms
abbrev Noted : Type 0
Noted = ℕ × Text

-- two errors that are not the same, or stand more than a minute apart
abbrev pub Apart : Noted → Noted → Type 0
Apart (a, s) (b, t) = (text_eq t s ≡ false) ⊎ (a + 60000 < b)

-- Each error of a journal is apart from the one written last before it.
abbrev pub Spaced : Noted → List Line → Type 0
Spaced last [] = Unit
Spaced last (error now text ∷ l) = Apart last (now, text) × Spaced (now, text) l
Spaced last (counted first n ∷ l) = Spaced last l
Spaced last (first_done store ∷ l) = Spaced last l

abbrev last_error : Noted → List Line → Noted
last_error last [] = last
last_error last (error now text ∷ l) = last_error (now, text) l
last_error last (counted first n ∷ l) = last_error last l
last_error last (first_done store ∷ l) = last_error last l

Spaced-append :
    (last : Noted) (l m : List Line)
    → Spaced last l
    → Spaced (last_error last l) m
    → Spaced last (l ++ m)
Spaced-append last [] m h k = k
Spaced-append last (error now text ∷ l) m (a, h) k = (a, Spaced-append (now, text) l m h k)
Spaced-append last (counted first n ∷ l) m h k = Spaced-append last l m h k
Spaced-append last (first_done store ∷ l) m h k = Spaced-append last l m h k

last_error-append :
    (last : Noted) (l m : List Line) → last_error last (l ++ m) ≡ last_error (last_error last l) m
last_error-append last [] m = refl
last_error-append last (error now text ∷ l) m = last_error-append (now, text) l m
last_error-append last (counted first n ∷ l) m = last_error-append last l m
last_error-append last (first_done store ∷ l) m = last_error-append last l m

abbrev noted : Ticker → Noted
noted t = (t.err_at, t.err_text)

-- what the end of a tick leaves: none is in flight, and its lines are spaced behind the last error
record Ended (t : Ticker) (r : Ticker × List Line) : Type 0 where
  pub idle : r.0.in_flight ≡ false
  pub spaced : Spaced (noted t) r.1
  pub last : last_error (noted t) r.1 ≡ noted r.0

news-Apart :
    (t : Ticker) (now : ℕ) (text : Text) → is_news t now text ≡ true → Apart (noted t) (now, text)
news-Apart t now text h = elim (Bool-cases (text_eq text t.err_text)) [
  | inr e ↦ inl e
  | inl e ↦ inr (ground (arith, h, e))
]

note_error-Ended : (t : Ticker) (now : ℕ) (text : Text) → Ended t (note_error t now text)
unfolding note_error
note_error-Ended t now text = elim (Bool-cases (is_news t now (take 200 text))) [
  | inl e ↦
      rw e (record { idle = refl; spaced = (news-Apart t now (take 200 text) e, tt); last = refl })
  | inr e ↦ rw e (record { idle = refl; spaced = tt; last = refl })
]

success_lines-Ended :
    (t : Ticker) (store : Text) (n : Counts)
    → (Spaced (noted t) (success_lines store (t.cycles + 1) n))
      × (last_error (noted t) (success_lines store (t.cycles + 1) n) ≡ noted t)
unfolding success_lines
success_lines-Ended t store n = two (any_moved n || not (n.left == 0)) (t.cycles + 1 == 1)
  where
    two :
        (a b : Bool)
        → (Spaced (noted t) (line_if a (counted b n) ++ line_if b (first_done store)))
          × (last_error (noted t) (line_if a (counted b n) ++ line_if b (first_done store))
              ≡ noted t)
    two true true = (tt, refl)
    two true false = (tt, refl)
    two false true = (tt, refl)
    two false false = (tt, refl)

end_tick-Ended :
    (store : Text) (t : Ticker) (now : ℕ) (o : CycleEnd) → Ended t (end_tick store t now o)
unfolding end_tick
end_tick-Ended store t now (moved n) =
    let (spaced, last) = success_lines-Ended t store n in
    record { idle = refl; spaced = spaced; last = last }
end_tick-Ended store t now (failed text) = note_error-Ended t now text

-- what holds after any steps, from a last error on
record Kept (start : Noted) (j : Journal) : Type 0 where
  pub balanced : j.began ≡ j.ended + one_if j.ticker.in_flight
  pub spaced : Spaced start j.lines
  pub last : last_error start j.lines ≡ noted j.ticker

begin_tick_balance :
    (t : Ticker) (began ended : ℕ)
    → began ≡ ended + one_if t.in_flight
    → began + one_if (begin_tick t).1 ≡ ended + one_if (begin_tick t).0.in_flight
unfolding begin_tick
begin_tick_balance t began ended h = ground (arith, h)

begin_tick-noted : (t : Ticker) → noted (begin_tick t).0 ≡ noted t
unfolding begin_tick
begin_tick-noted t = ground arith

Step-Kept : (start : Noted) {j k : Journal} → Kept start j → Step j k → Kept start k
Step-Kept start h (Step.begin_step j) = record {
  balanced = begin_tick_balance j.ticker j.began j.ended h.balanced;
  spaced = h.spaced;
  last = h.last ∙ sym (begin_tick-noted j.ticker);
}
Step-Kept start h (Step.end_step j store now o busy) =
    let e = end_tick-Ended store j.ticker now o in
    record {
      balanced = rw e.idle (omega (arith, rw busy at h.balanced));
      spaced =
          Spaced-append start j.lines (end_tick store j.ticker now o).1 h.spaced
            (subst (λ s. Spaced s (end_tick store j.ticker now o).1) (sym h.last) e.spaced);
      last =
          last_error-append start j.lines (end_tick store j.ticker now o).1
          ∙ ap (λ s. last_error s (end_tick store j.ticker now o).1) h.last
          ∙ e.last;
    }

Steps-Kept : (start : Noted) {j k : Journal} → Kept start j → Steps j k → Kept start k
Steps-Kept start h Steps.none_yet = h
Steps-Kept start h (Steps.then_one steps step) = Step-Kept start (Steps-Kept start h steps) step

-- Whatever ticks begin and cycles end, from a time when none is in flight: at most one cycle is in
-- flight, for as many began as ended, and one more while one is; and an error is written only when its
-- text is another than that of the error written last, or comes more than a minute after it.
pub Steps-Spaced :
    (t : Ticker) {j : Journal}
    → t.in_flight ≡ false
    → Steps (new_journal t) j
    → (j.began ≡ j.ended + one_if j.ticker.in_flight) × Spaced (t.err_at, t.err_text) j.lines
Steps-Spaced t idle steps =
    let k =
      Steps-Kept (noted t) (record { balanced = rw idle (omega arith); spaced = tt; last = refl })
        steps in
    (k.balanced, k.spaced)
