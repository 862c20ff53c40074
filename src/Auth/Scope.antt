-- ===== src/Auth/Scope.antt =====
-- `Scope` of kh_common/models/auth.py.
use kh_common.Prelude.{
  ℕ, ◌≤◌, ◌≡◌, refl, List, [], ◌∷◌, Bool, true, false, leb, if◌then◌else◌, ◌&&◌, ◌↔◌, ◌⊎◌, inl,
  arith,
}

pub data Scope : Type 0 where
  default bot user mod_ admin internal : Scope

unfoldable pub scope_value : Scope → ℕ
scope_value default = 0
scope_value bot = 1
scope_value user = 2
scope_value mod_ = 3
scope_value admin = 4
scope_value internal = 5

-- `Scope.__members__.values()`
abbrev pub members : List Scope
members = default ∷ bot ∷ user ∷ mod_ ∷ admin ∷ internal ∷ []

unfoldable pub included : Scope → List Scope → List Scope
unfolding scope_value
included self [] = []
included self (v ∷ vs) =
    if leb (scope_value user) (scope_value v) && leb (scope_value v) (scope_value self)
    then v ∷ included self vs
    else included self vs

abbrev pub or_self : Scope → List Scope → List Scope
or_self self [] = self ∷ []
or_self self (v ∷ vs) = v ∷ vs

unfoldable pub all_included_scopes : Scope → List Scope
unfolding included
all_included_scopes self = or_self self (included self members)

unfoldable pub Scope-discrete : Discrete Scope
Scope-discrete = hlevel

-- `scope in scopes`
unfoldable pub has_scope : Scope → List Scope → Bool
has_scope s [] = false
has_scope s (v ∷ vs) = elim (Scope-discrete v s) [ yes p ↦ true | no p ↦ has_scope s vs ]

abbrev Includes : Scope → Scope → Type 0
Includes s t =
    (scope_value t ≡ scope_value s) ⊎ ((2 ≤ scope_value t) × (scope_value t ≤ scope_value s))

Includes-of_has : (s t : Scope) → has_scope t (all_included_scopes s) ≡ true → Includes s t
unfolding has_scope all_included_scopes Scope-discrete
Includes-of_has default default h = inl refl
Includes-of_has s t h = ground arith

has_of_Includes : (s t : Scope) → Includes s t → has_scope t (all_included_scopes s) ≡ true
unfolding has_scope all_included_scopes Scope-discrete
has_of_Includes default default h = refl
has_of_Includes s t h = ground arith

-- The scopes that a scope includes are itself and, from user upwards, those that are no higher.
pub has_scope-all_included_scopes :
    (s t : Scope)
    → (has_scope t (all_included_scopes s) ≡ true)
      ↔ ((scope_value t ≡ scope_value s) ⊎ ((2 ≤ scope_value t) × (scope_value t ≤ scope_value s)))
has_scope-all_included_scopes s t = (Includes-of_has s t, has_of_Includes s t)
