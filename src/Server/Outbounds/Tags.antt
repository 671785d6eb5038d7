-- ===== src/Server/Outbounds/Tags.antt =====
-- validateOutboundTag and the list of outbounds: what may pass.
use xray_web_maneger.Common.{
  ℕ, ◌≤◌, ◌≡◌, ◌↔◌, inl, inr, refl, Text, is_empty, Bool, true, false, not, none, List, [], ◌∷◌,
  length, any, arith, All, Bool-cases,
}
use xray_web_maneger.Server.Outbounds.{
  Outbound, exclude_protocols, is_in, parse_protocol, is_valid_outbound, list_outbounds,
  is_tag_char, validate_outbound_tag,
}

any-false : (p : ℕ → Bool) (t : Text) → (any (λ c. not (p c)) t ≡ false) ↔ All (λ c. p c ≡ true) t
any-false p [] = (λ h. tt, λ h. refl)
any-false p (c ∷ t) = ground (arith, any-false p t)

-- A tag may be switched to exactly if it is empty, which means automatic mode, or has at most 256
-- bytes, all of them letters, digits, or one of - _ . and the colon.
pub validate_outbound_tag_iff :
    (tag : Text)
    → (validate_outbound_tag tag ≡ none)
      ↔ ((length tag ≤ 256) × All (λ c. is_tag_char c ≡ true) tag)
unfolding validate_outbound_tag
validate_outbound_tag_iff [] = ground arith
validate_outbound_tag_iff (c ∷ tag) = ground (arith, any-false is_tag_char (c ∷ tag))

module _ (to_lower : Text → Text) where
  -- Every outbound that is listed has a tag, and its protocol is none of the excluded ones.
  pub list_outbounds-shown :
      (list : List Outbound)
      → All
          (λ o. (is_empty o.tag ≡ false) × (is_in o.protocol exclude_protocols ≡ false))
          (list_outbounds to_lower list)
  unfolding list_outbounds is_valid_outbound
  list_outbounds-shown [] = tt
  list_outbounds-shown (o ∷ rest) = elim (Bool-cases (is_empty o.tag)) [
    | inl e ↦ rw e (list_outbounds-shown rest)
    | inr e ↦ elim (Bool-cases (is_in (parse_protocol to_lower o.settings) exclude_protocols)) [
      | inl f ↦ rw (e, f) (list_outbounds-shown rest)
      | inr f ↦ rw (e, f) ((e, f), list_outbounds-shown rest)
    ]
  ]
