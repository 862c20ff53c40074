-- ===== src/Exceptions/Refid/Settled.antt =====
-- The refid of an exception of kh_common/exceptions/base_error.py, from each of its forms.
use kh_common.Prelude.{
  ℕ, ◌≡◌, ◌≢◌, ◌⊎◌, inl, inr, refl, ap, ◌∙◌, Option, none, some, List, [], ◌∷◌, true, Option-cases,
}
use kh_common.Prelude.Outcome.{returned}
use kh_common.Prelude.Lists.{length}
use kh_common.Prelude.Dict
use kh_common.Prelude.Dict.{Dict, Unique}
use kh_common.Prelude.Text.{Text, Text-discrete, codes}
use kh_common.Exceptions.Refid.{
  text, bytes, Given, uuid, raw, size, is_truthy, either, BaseError, UuidClass, settle, init,
}

-- The two ways to write a UUID, which `UUID` reads
pub record UuidLaws {Uuid : Type 0} (uuids : UuidClass Uuid) : Type 0 where
  pub hex : Uuid → Text
  pub to_bytes : Uuid → List ℕ
  pub length-hex : (u : Uuid) → length (hex u) ≡ 32
  pub length-to_bytes : (u : Uuid) → length (to_bytes u) ≡ 16
  pub of_hex-hex : (u : Uuid) → uuids.of_hex (text (hex u)) ≡ returned u
  pub of_bytes-to_bytes : (u : Uuid) → uuids.of_bytes (bytes (to_bytes u)) ≡ returned u

-- The value of a key that stands in the first dictionary, else of the second
abbrev pub or_else : {V : Type 0} → Option V → Option V → Option V
or_else (some v) w = some v
or_else none w = w

or_else-none : {V : Type 0} (v : Option V) → or_else v none ≡ v
or_else-none none = refl
or_else-none (some v) = refl

truthy_text :
    (Uuid V : Type 0) (t : Text)
    → length t ≡ 32
    → is_truthy {Uuid = Uuid} {V = V} (raw (text t)) ≡ true
unfolding is_truthy
truthy_text Uuid V [] h = cc
truthy_text Uuid V (c ∷ t) h = refl

truthy_bytes :
    (Uuid V : Type 0) (bs : List ℕ)
    → length bs ≡ 16
    → is_truthy {Uuid = Uuid} {V = V} (raw (bytes bs)) ≡ true
unfolding is_truthy
truthy_bytes Uuid V [] h = cc
truthy_bytes Uuid V (b ∷ bs) h = refl

get-update :
    {V : Type 0} (k : Text) (d e : Dict Text V)
    → Unique Text-discrete e
    → Dict.get Text-discrete k (Dict.update Text-discrete d e)
      ≡ or_else (Dict.get Text-discrete k e) (Dict.get Text-discrete k d)
get-update k d e u = elim (Option-cases (Dict.get Text-discrete k e)) [
  | inl h ↦ rw h (Dict.get-update_absent Text-discrete k d e h)
  | inr (v, h) ↦ rw h (Dict.get-update_present Text-discrete k v d e u h)
]

module _ {Uuid V : Type 0} (uuids : UuidClass Uuid) (laws : UuidLaws uuids) where
  -- The value stands for the UUID: as an object, as its 32 hexadecimal digits, or as its 16 bytes.
  abbrev pub IsForm : Uuid → Given Uuid V → Type 0
  IsForm u g = (g ≡ uuid u) ⊎ ((g ≡ raw (text (laws.hex u))) ⊎ (g ≡ raw (bytes (laws.to_bytes u))))

  settle_form : (u : Uuid) (g : Given Uuid V) → IsForm u g → settle uuids g ≡ returned (uuid u)
  unfolding settle size
  settle_form u g (inl h) = rw h refl
  settle_form u g (inr (inl h)) = rw (h, laws.length-hex u, laws.of_hex-hex u) refl
  settle_form u g (inr (inr h)) = rw (h, laws.length-to_bytes u, laws.of_bytes-to_bytes u) refl

  truthy_form : (u : Uuid) (g : Given Uuid V) → IsForm u g → is_truthy g ≡ true
  unfolding is_truthy
  truthy_form u g (inl h) = rw h refl
  truthy_form u g (inr (inl h)) = rw h (truthy_text Uuid V (laws.hex u) (laws.length-hex u))
  truthy_form u g (inr (inr h)) =
      rw h (truthy_bytes Uuid V (laws.to_bytes u) (laws.length-to_bytes u))

  -- The refid is given, or it is not and stands in the logdata.
  abbrev pub IsPassed : Given Uuid V → Option (Given Uuid V) → Dict Text (Given Uuid V) → Type 0
  IsPassed g refid logdata =
      (refid ≡ some g)
      ⊎ ((refid ≡ none) × (Dict.get Text-discrete (codes "refid") logdata ≡ some g))

  chosen :
      (g : Given Uuid V) (refid : Option (Given Uuid V)) (logdata : Dict Text (Given Uuid V))
      (fresh : Uuid)
      → is_truthy g ≡ true
      → IsPassed g refid logdata
      → either refid (either (Dict.get Text-discrete (codes "refid") logdata) (uuid fresh)) ≡ g
  unfolding either
  chosen g refid logdata fresh t (inl h) = rw (h, t) refl
  chosen g refid logdata fresh t (inr (h, q)) = rw (h, q, t) refl

  -- What the exception keeps: the UUID, every entry of the keywords and of the logdata but a refid,
  -- with the keywords first; and the caller's logdata has no refid any more.
  pub record IsMade (u : Uuid) (logdata kwargs : Dict Text (Given Uuid V)) (made : BaseError Uuid V)
      : Type 0 where
    pub has_refid : made.refid ≡ uuid u
    pub keeps :
        (k : Text)
        → codes "refid" ≢ k
        → Dict.get Text-discrete k made.logdata
          ≡ or_else (Dict.get Text-discrete k kwargs) (Dict.get Text-discrete k logdata)
    pub not_twice :
        Dict.get Text-discrete (codes "refid") made.logdata
        ≡ Dict.get Text-discrete (codes "refid") kwargs
    pub taken_out : Dict.get Text-discrete (codes "refid") made.passed ≡ none

  -- For a UUID given as an object, as its hexadecimal digits or as its bytes, as the argument or in
  -- the logdata, the exception is made and has that UUID as its refid; its logdata are the keywords
  -- and, behind them, what was passed, without a refid.
  pub init-IsMade :
      (u : Uuid) (g : Given Uuid V) (refid : Option (Given Uuid V))
      (logdata kwargs : Dict Text (Given Uuid V)) (fresh : Uuid)
      → IsForm u g
      → IsPassed g refid logdata
      → Unique Text-discrete logdata
      → Unique Text-discrete kwargs
      → (made : BaseError Uuid V) × (init uuids refid logdata kwargs fresh ≡ returned made)
        × IsMade u logdata kwargs made
  unfolding init
  init-IsMade u g refid logdata kwargs fresh f p l k =
      let made : BaseError Uuid V = record {
        refid = uuid u;
        logdata =
            Dict.update Text-discrete (Dict.remove Text-discrete (codes "refid") logdata) kwargs;
        passed = Dict.remove Text-discrete (codes "refid") logdata;
      } in
      (
        made,
        rw (chosen g refid logdata fresh (truthy_form u g f) p, settle_form u g f) refl,
        record {
          has_refid = refl;
          keeps = λ j n.
              get-update j (Dict.remove Text-discrete (codes "refid") logdata) kwargs k
              ∙ ap (or_else (Dict.get Text-discrete j kwargs))
                  (Dict.get-remove_ne Text-discrete (codes "refid") j logdata n);
          not_twice =
              get-update (codes "refid") (Dict.remove Text-discrete (codes "refid") logdata) kwargs
                k
              ∙ (ap (or_else (Dict.get Text-discrete (codes "refid") kwargs))
                    (Dict.get-remove_self Text-discrete (codes "refid") logdata l)
                  ∙ or_else-none (Dict.get Text-discrete (codes "refid") kwargs));
          taken_out = Dict.get-remove_self Text-discrete (codes "refid") logdata l;
        },
      )
