-- ===== src/Box/Answers.antt =====
-- What becomes of a request that nodeHandler of lij-worker/node/server.js is given, by the status, the body
-- and the length of its answer.
use lijox.Base.{
  ℕ, ◌/◌, ◌≡◌, refl, ap, inl, inr, Bool, true, ◌&&◌, not, Option, none, some, List, [], ◌∷◌, ◌++◌,
  leb, if◌then◌else◌, Bool-cases, length, Text, Bytes, codes, text_eq, num, number_string, str, doc,
  take, bytes_in,
}
use lijox.Platform.{Platform}
use lijox.Kv.{lookup}
use lijox.Worker.Reply.{object}
use lijox.Box.Maps.{lookup-map_set_self}
use lijox.Box.Server.{worker_headers, has_body, body_cap}
use lijox.Box.Handler.{
  NodeRequest, Answer, Tried, ok, threw, body_of, or_slash, set_all, relay_answer, too_big, crashed,
  answer_to, handed_on, node_handler, node_handler-eq,
}

-- what becomes of a request: its body is above the cap, an exception is thrown, or the worker answers
pub data Fate : Type 0 where
  over : Fate
  fails : Text → Fate
  answers : Answer Bytes → Fate

-- the length that the headers give, under the lower-case name or the other
abbrev first_of : Option Text → Option Text → Option Text
first_of none b = b
first_of (some a) b = some a

abbrev pub content_length : List (Text × Text) → Option Text
content_length hs =
    first_of (lookup (codes "content-length") hs) (lookup (codes "Content-Length") hs)

abbrev status_of : Fate → ℕ
status_of over = 413
status_of (fails t) = 500
status_of (answers r) = r.status

-- { error } of a text, as bytes
abbrev error_text : Platform → Text → Bytes
error_text p t = p.bytes_of (doc (object (("error", str t) ∷ [])))

-- the bytes that an answer is about
abbrev bytes_of_fate : Platform → ℕ → Fate → Bytes
bytes_of_fate p bound over =
    error_text p
      (codes "body exceeds the " ++ (number_string (num (bound / 1024 / 1024)) ++ codes " MB cap"))
bytes_of_fate p bound (fails t) = error_text p (codes "registry error: " ++ take 200 t)
bytes_of_fate p bound (answers r) = r.body

-- a HEAD that the worker answers has no body
abbrev has_answer_body : Text → Fate → Bool
has_answer_body method (answers r) = not (text_eq method (codes "HEAD"))
has_answer_body method _ = true

-- An answer tells of a request's fate by its status, its body and its content-length.
pub record Tells (p : Platform) (bound : ℕ) (method : Text) (f : Fate) (a : Answer (Option Bytes))
    : Type 0 where
  pub status : a.status ≡ status_of f
  pub body : a.body ≡ (if has_answer_body method f then some (bytes_of_fate p bound f) else none)
  pub size :
      content_length a.headers ≡ some (number_string (num (length (bytes_of_fate p bound f))))

too_big-Tells :
    (p : Platform) (bound : ℕ) (method : Text) → Tells p bound method over (too_big p bound)
unfolding too_big lookup
too_big-Tells p bound method = record { status = refl; body = refl; size = refl }

crashed-Tells :
    (p : Platform) (bound : ℕ) (method t : Text) → Tells p bound method (fails t) (crashed p t)
unfolding crashed lookup
crashed-Tells p bound method t = record { status = refl; body = refl; size = refl }

relay_answer-Tells :
    (p : Platform) (bound : ℕ) (method : Text) (r : Answer Bytes)
    → Tells p bound method (answers r) (relay_answer method r)
unfolding relay_answer
relay_answer-Tells p bound method r = record {
  status = refl;
  body = elim (Bool-cases (text_eq method (codes "HEAD"))) [
    | inl h ↦ rw h refl
    | inr h ↦ rw h refl
  ];
  size =
      ap (λ o. first_of o (lookup (codes "Content-Length") (relay_answer method r).headers))
        (lookup-map_set_self (codes "content-length") (number_string (num (length r.body)))
          (set_all r.headers []));
}

module _ (p : Platform) (legal : Text → Text → Bool) (resolve : Text → Text → Tried Text)
    (fetch : Text → Text → List (Text × Text) → Option Bytes → Tried (Answer Bytes)) (host : Text)
    (cap_setting : ℕ) where
  abbrev of_fetch : Tried (Answer Bytes) → Fate
  of_fetch (ok r) = answers r
  of_fetch (threw t) = fails t

  -- the worker is asked with the method, the URL, the headers and the whole body
  abbrev of_url : NodeRequest → Option Bytes → Tried Text → Fate
  of_url q body (ok u) = of_fetch (fetch q.method u (worker_headers legal q.peer q.headers) body)
  of_url q body (threw t) = fails t

  -- the fate of a request
  abbrev pub fate : NodeRequest → Fate
  fate q =
      if has_body q.method && not (leb (bytes_in q.chunks) (body_cap cap_setting))
      then over
      else of_url q (if has_body q.method then body_of q.chunks else none)
          (resolve (or_slash q.url) (codes "https://" ++ host))

  handed_on-Tells :
      (q : NodeRequest) (body : Option Bytes)
      → Tells p
          (body_cap cap_setting)
          q.method
          (of_url q body (resolve (or_slash q.url) (codes "https://" ++ host)))
          (handed_on p legal resolve fetch host cap_setting q body)
  handed_on-Tells q body = by_url (resolve (or_slash q.url) (codes "https://" ++ host))
    where
      by_fetch :
          (r : Tried (Answer Bytes))
          → Tells p
              (body_cap cap_setting)
              q.method
              (of_fetch r)
              (answer_to p legal resolve fetch host cap_setting q.method r)
      by_fetch (ok r) = relay_answer-Tells p (body_cap cap_setting) q.method r
      by_fetch (threw t) = crashed-Tells p (body_cap cap_setting) q.method t

      by_url :
          (u : Tried Text)
          → Tells p (body_cap cap_setting) q.method (of_url q body u) (elim u [
            | threw t ↦ crashed p t
            | ok u ↦
                answer_to p legal resolve fetch host cap_setting q.method
                  (fetch q.method u (worker_headers legal q.peer q.headers) body)
          ])
      by_url (ok u) = by_fetch (fetch q.method u (worker_headers legal q.peer q.headers) body)
      by_url (threw t) = crashed-Tells p (body_cap cap_setting) q.method t

  -- A request whose method has a body of more bytes than the cap is answered 413, and the worker is not
  -- asked; any other is handed to the worker, with the whole body, in whatever chunks it came, or with
  -- none where its method has none. A Response goes back with its status and, but to a HEAD, its body;
  -- an exception on the way is answered 500. A 413 and a 500 have the text of the error as their body,
  -- and the content-length of every answer is the number of bytes of its body, and to a HEAD that of
  -- the Response's body.
  pub node_handler-Tells :
      (q : NodeRequest)
      → Tells p
          (body_cap cap_setting)
          q.method
          (fate q)
          (node_handler p legal resolve fetch host cap_setting q)
  node_handler-Tells q =
      elim (Bool-cases
        (has_body q.method && not (leb (bytes_in q.chunks) (body_cap cap_setting)))) [
          | inl big ↦
              rw (node_handler-eq p legal resolve fetch host cap_setting q, big)
                (too_big-Tells p (body_cap cap_setting) q.method)
          | inr fits ↦
              rw (node_handler-eq p legal resolve fetch host cap_setting q, fits)
                (handed_on-Tells q (if has_body q.method then body_of q.chunks else none))
        ]
