-- ===== src/Rails/Boundary/Exact.antt =====
-- atreides/rails/boundary.py: `coerce_member` matches exactly.
use project_atreides.Rails.Boundary.{Raw, member, plain, other, named, coerce_member, string_key}
use project_atreides.Common.{sym, ap, inl, inr, List, [], arith, String, ◌≡◌, ◌⊎◌, ◌∷◌}

module _ {A : Type 0} (value : A → String) where
  named-member : (as' : List A) (s : String) (m : A) → named value as' s ≡ member m → value m ≡ s
  unfolding named
  named-member [] s m h = cc
  named-member (a ∷ as') s m h =
      ground (arith, named-member as' s m, string_key.eqb_iff (value a) s)

  -- A text that becomes a member is that member's value, and nothing but a member or such a text
  -- becomes a member.
  pub coerce_member-member :
      (as' : List A) (x : Raw A) (m : A)
      → coerce_member value as' x ≡ member m
      → (x ≡ member m) ⊎ (x ≡ plain (value m))
  unfolding coerce_member
  coerce_member-member as' (member a) m h = inl h
  coerce_member-member as' (plain s) m h = inr (ap plain (sym (named-member as' s m h)))
  coerce_member-member as' other m h = cc
