-- ===== src/Worker/Messages.antt =====
-- What a message that lij-worker/src/index.js signs says: canonicalRegisterMsg determines its fields.
use lijox.Base.{
  ◌≡◌, refl, sym, ◌∙◌, ap, true, Option, none, some, List, [], ◌∷◌, ◌++◌, map, any, Text, codes,
  Json, get_field, split_on,
}
use lijox.Platform.{Platform}
use lijox.Worker.Encode.{
  code_points, is_surrogate, text_bytes, encode_component, cons_part, join_encoded, with_prefix,
}
use lijox.Worker.RegisterMsg.{
  Offers, plain_record, with_filter, with_tatara, with_routes, plain, decimal, v1_fields, offers,
  offered_fields, offered_prefix, message_of, canonical_register_msg,
}
use lijox.Worker.EncodedFields.{
  encoded, split-join_encoded, encoded-injective, version, with_prefix-eq,
}

module _ (p : Platform) where
  -- what a record signs: its version and its fields, in order
  pub record Says (f : Json) (m : Text) : Type 0 where
    pub more : List Text
    pub offered : offered_fields p f (offers p f) ≡ some more
    pub parts :
        split_on 58 m
        ≡ codes "lijox-register" ∷ version (offers p f) ∷ encoded (v1_fields p f ++ more)

  parts_of :
      (o : Offers) (x : Text)
      → split_on 58 (offered_prefix p o ++ x) ≡ codes "lijox-register" ∷ version o ∷ split_on 58 x
  unfolding split_on
  parts_of plain_record x = refl
  parts_of with_filter x = refl
  parts_of (with_tatara t) x = refl
  parts_of (with_routes rs) x = refl

  canonical_register_msg-Says :
      (f : Json) {m : Text} → canonical_register_msg p f ≡ some m → Says f m
  unfolding canonical_register_msg
  canonical_register_msg-Says f {m} h = of_more (offered_fields p f (offers p f)) refl h
    where
      of_more :
          (o : Option (List Text))
          → offered_fields p f (offers p f) ≡ o
          → message_of p (offered_prefix p (offers p f)) (v1_fields p f) o ≡ some m
          → Says f m
      of_more none e h = cc
      of_more (some r) e h =
          let (x, joined, same) = with_prefix-eq _ (join_encoded (v1_fields p f ++ r)) h in
          record {
            more = r;
            offered = e;
            parts =
                ap (split_on 58) same
                ∙ parts_of (offers p f) x
                ∙ ap (λ l. codes "lijox-register" ∷ version (offers p f) ∷ l)
                    (split-join_encoded _ _ joined);
          }

  -- two records that a message speaks of in the same way
  pub record SameFields (f g : Json) : Type 0 where
    pub same_version : version (offers p f) ≡ version (offers p g)
    pub more_f : List Text
    pub offered_f : offered_fields p f (offers p f) ≡ some more_f
    pub more_g : List Text
    pub offered_g : offered_fields p g (offers p g) ≡ some more_g
    pub same_bytes :
        map text_bytes (v1_fields p f ++ more_f) ≡ map text_bytes (v1_fields p g ++ more_g)

  -- A signature over a registration's message vouches for each of its fields: two records with the same
  -- message have the same version, as many fields, and the same UTF-8 bytes in each.
  pub canonical_register_msg-injective :
      (f g : Json) {m : Text}
      → canonical_register_msg p f ≡ some m
      → canonical_register_msg p g ≡ some m
      → SameFields f g
  canonical_register_msg-injective f g h k =
      let a = canonical_register_msg-Says f h in
      let b = canonical_register_msg-Says g k in
      let (same_version, same_parts) = second _ _ _ _ _ (sym a.parts ∙ b.parts) in
      record {
        same_version = same_version;
        more_f = a.more;
        offered_f = a.offered;
        more_g = b.more;
        offered_g = b.offered;
        same_bytes =
            encoded-injective (v1_fields p f ++ a.more) (v1_fields p g ++ b.more) same_parts;
      }
    where
      second : (x v w : Text) (l r : List Text) → x ∷ v ∷ l ≡ x ∷ w ∷ r → (v ≡ w) × (l ≡ r)
      second x v w l r h = (cc, cc)

  no_part : (o : Option Text) → cons_part o none ≡ none
  no_part none = refl
  no_part (some x) = refl

  join_encoded-none :
      (l r : List Text) (t : Text) → encode_component t ≡ none → join_encoded (l ++ (t ∷ r)) ≡ none
  unfolding join_encoded
  join_encoded-none [] [] t h = h
  join_encoded-none [] (u ∷ r) t h = rw h refl
  join_encoded-none (s ∷ []) r t h = rw (join_encoded-none [] r t h) (no_part (encode_component s))
  join_encoded-none (s ∷ u ∷ l) r t h =
      rw (join_encoded-none (u ∷ l) r t h) (no_part (encode_component s))

  -- A record whose name has a surrogate that stands alone has no message: encodeURIComponent throws,
  -- whatever the record offers.
  pub canonical_register_msg-throws :
      (f : Json)
      → any is_surrogate (code_points (plain (get_field "name" f))) ≡ true
      → canonical_register_msg p f ≡ none
  unfolding canonical_register_msg v1_fields encode_component
  canonical_register_msg-throws f h = of_more (offered_fields p f (offers p f))
    where
      throws : encode_component (plain (get_field "name" f)) ≡ none
      throws = rw (encode_component, h) refl

      of_more :
          (o : Option (List Text))
          → message_of p (offered_prefix p (offers p f)) (v1_fields p f) o ≡ none
      of_more none = refl
      of_more (some r) = ap (with_prefix (offered_prefix p (offers p f))) (
          join_encoded-none (plain (get_field "pubkey" f) ∷ decimal p (get_field "ts" f) ∷ []) _
            (plain (get_field "name" f)) throws)
