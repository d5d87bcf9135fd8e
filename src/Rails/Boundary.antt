-- ===== src/Rails/Boundary.antt =====
-- atreides/rails/boundary.py: an enum field may arrive as a member, as a text or as anything else.
pub mod Exact
use project_atreides.Common.{String, List, [], ◌∷◌, Bool, true, false, if◌then◌else◌}
use project_atreides.Common.Key.{◌==◌, Key, string_key}

pub data Raw (A : Type 0) : Type 0 where
  member : A → Raw A
  plain : String → Raw A
  other : Raw A

module _ {A : Type 0} (value : A → String) where
  -- `for member in enum_cls: if member.value == value: return member`
  unfoldable pub named : List A → String → Raw A
  named [] s = plain s
  named (a ∷ as') s = let rest = named as' s in if value a == s then member a else rest

  unfoldable pub coerce_member : List A → Raw A → Raw A
  unfolding named
  coerce_member members (member a) = member a
  coerce_member members (plain s) = named members s
  coerce_member members other = other

-- `isinstance(value, enum_cls)`
abbrev pub recognised : {A : Type 0} → Raw A → Bool
recognised (member _) = true
recognised (plain _) = false
recognised other = false

-- `value is enum_cls.member`
abbrev pub is_member : {A : Type 0} ⦃k : Key A⦄ → Raw A → A → Bool
is_member (member a) b = a == b
is_member (plain _) b = false
is_member other b = false
