-- ===== src/Caching/Binding.antt =====
-- The arguments of a call by their names, as `KwargsCache` and `AerospikeCache` of
-- kh_common/caching/__init__.py put them together.
use kh_common.Prelude.{List, [], ◌∷◌}
use kh_common.Prelude.Dict
use kh_common.Prelude.Dict.{Dict, Unique}
use kh_common.Prelude.Text.{Text, Text-discrete}

-- `arg_spec.args`, and the defaults of the last of them by name
pub record Signature (A : Type 0) : Type 0 where
  pub names : List Text
  pub defaults : Dict Text A

-- `*args` and `**kwargs`
pub record Arguments (A : Type 0) : Type 0 where
  pub args : List A
  pub kwargs : Dict Text A

-- `dict(zip(arg_spec, args))`
unfoldable pub zipped : {A : Type 0} → List Text → List A → Dict Text A
zipped [] args = []
zipped (n ∷ names) [] = []
zipped (n ∷ names) (a ∷ args) = (n, a) ∷ zipped names args

-- `{ **kw, **dict(zip(arg_spec, args)), **kwargs }`
unfoldable pub bound : {A : Type 0} → Signature A → Arguments A → Dict Text A
unfolding zipped
bound signature call =
    Dict.update Text-discrete
      (Dict.update Text-discrete signature.defaults (zipped signature.names call.args)) call.kwargs

pub update-Unique :
    {A : Type 0} (d e : Dict Text A)
    → Unique Text-discrete d
    → Unique Text-discrete (Dict.update Text-discrete d e)
unfolding Dict.update
update-Unique d [] u = u
update-Unique d ((k, v) ∷ e) u =
    update-Unique (Dict.set Text-discrete k v d) e (Dict.set-Unique Text-discrete k v d u)

pub bound-Unique :
    {A : Type 0} (signature : Signature A) (call : Arguments A)
    → Unique Text-discrete signature.defaults
    → Unique Text-discrete (bound signature call)
unfolding bound
bound-Unique signature call u = update-Unique _ call.kwargs (update-Unique _ _ u)
