-- ===== src/Worker/Signers.antt =====
-- Whose signature the routes under /names/ of lij-worker/src/index.js take.
use lijox.Base.{
  ℕ, ◌≡◌, sym, subst, Bool, true, false, ◌&&◌, not, Option, some, arith, Text, to_lower, in_window,
  Json, get_field,
}
use lijox.Platform.{Platform, to_number}
use lijox.Kv.{Kv}
use lijox.Worker.LndSigned.{verify_lnd}
use lijox.Worker.Reply.{Check, go, ◌>>=◌, refuse-go, require-go, >>=-eq-go, go-injective}
use lijox.Worker.Names.{is_name, name_msg, text_of, lsp_key, is_present, name_auth}

-- the name, the signing LSP and the LSP that a transfer is to, as a call states them
abbrev pub name_in : Json → Text
name_in body = to_lower (text_of (get_field "name" body))

abbrev pub lsp_in : Json → Text
lsp_in body = to_lower (text_of (get_field "lsp_pubkey" body))

abbrev pub to_in : Json → Text
to_in body = to_lower (text_of (get_field "to_lsp_pubkey" body))

pub not-false : (b : Bool) → not b ≡ false → b ≡ true
not-false b h = ground arith

pub and-rest : (a b : Bool) → a ≡ true → (a && b) ≡ false → b ≡ false
and-rest a b t h = ground arith

module _ (p : Platform) (kv : Kv) (now : ℕ) where
  open kv use {State}

  -- a call that an LSP of the registry has signed for this action, in time
  pub record NameSigned (s : State) (body : Json) (kind : Text) (extra : Option Text) : Type 0 where
    pub named : is_name (name_in body) ≡ true
    pub in_time : in_window 600 now (to_number p (get_field "ts" body)) ≡ true
    pub registered : is_present (kv.read s now (lsp_key (lsp_in body))) ≡ true
    pub msg : Text
    pub message :
        name_msg kind (name_in body) (lsp_in body) (to_number p (get_field "ts" body)) extra
        ≡ some msg
    pub signed : verify_lnd p (lsp_in body) msg (text_of (get_field "signature" body)) ≡ true

  name_auth-NameSigned :
      (s : State) (body : Json) (kind : Text) (extra : Option Text) {a : Text × Text}
      → name_auth p kv now s body kind extra ≡ go a
      → NameSigned s body kind extra × (a ≡ (name_in body, lsp_in body))
  unfolding name_auth
  name_auth-NameSigned s body kind extra h =
      let (named, h1) = refuse-go _ _ _ h in
      let (_, h2) = refuse-go _ _ _ h1 in
      let (in_time, h3) = refuse-go _ _ _ h2 in
      let (registered, h4) = refuse-go _ _ _ h3 in
      let (msg, message, h5) = require-go _ _ _ h4 in
      let (signed, h6) = refuse-go _ _ _ h5 in
      (
        record {
          named = not-false _ named;
          in_time = not-false _ in_time;
          registered = not-false _ registered;
          msg = msg;
          message = message;
          signed = not-false _ signed;
        },
        sym (go-injective h6),
      )

  pub authed :
      {B : Type 0} (s : State) (body : Json) (kind : Text) (extra : Option Text)
      (k : Text × Text → Check B) {x : B}
      → (name_auth p kv now s body kind extra >>= k) ≡ go x
      → NameSigned s body kind extra × (k (name_in body, lsp_in body) ≡ go x)
  authed s body kind extra k {x} h =
      let (a, e, h1) = >>=-eq-go _ _ h in
      let (signed, same) = name_auth-NameSigned s body kind extra e in
      (signed, subst (λ a. k a ≡ go x) same h1)
