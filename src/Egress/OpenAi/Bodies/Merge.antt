-- ===== src/Egress/OpenAi/Bodies/Merge.antt =====
-- What a deep merge leaves at a path of keys.
use lunaroute.Prelude.{
  ◌≡◌, refl, sym, ap, ◌∙◌, ◌⊎◌, subst, Bool, true, false, String, Option, none, some, List, [], ◌∷◌,
  if◌then◌else◌, str_eq, str_eq_iff, Bool-cases, inl, inr, and_then, arith,
}
use lunaroute.Normalized.{Json, JsonFields, text, array, object, end, field, null, boolean, number}
use lunaroute.Egress.OpenAi.Bodies.{
  get_field, set_field, is_object, placed, deep_merge, merge_fields,
}

-- The value at the end of a path of keys.
abbrev pub value_at : List String → Json → Option Json
value_at [] v = some v
value_at (k ∷ ks) (object fields) = and_then (get_field k fields) (value_at ks)
value_at (k ∷ ks) _ = none

-- The path ends at an object that lacks its next key.
abbrev pub leaves_open : List String → Json → Bool
leaves_open [] v = false
leaves_open (k ∷ ks) (object fields) = elim (get_field k fields) [
  | none ↦ true
  | some v ↦ leaves_open ks v
]
leaves_open (k ∷ ks) _ = false

-- Each key of each object has one field.
unfoldable mutual
  unfolding get_field

  pub IsMap : Json → Type 0
  IsMap (object fields) = IsUnique fields
  IsMap _ = Unit

  pub IsUnique : JsonFields → Type 0
  IsUnique end = Unit
  IsUnique (field k v rest) = (get_field k rest ≡ none) × IsMap v × IsUnique rest

some_inj : {A : Type 0} {a b : A} → ◌≡◌ {A = Option A} (some a) (some b) → a ≡ b
some_inj h = cc

pub get_field-set_field :
    (k j : String) (v : Json) (fields : JsonFields)
    → get_field j (set_field k v fields) ≡ (if str_eq k j then some v else get_field j fields)
unfolding get_field set_field
get_field-set_field k j v end = refl
get_field-set_field k j v (field i w rest) =
    ground (arith, str_eq_iff k j, str_eq_iff i k, str_eq_iff i j, get_field-set_field k j v rest)

Object-cases : (v : Json) → (is_object v ≡ false) ⊎ ((fields : JsonFields) × (v ≡ object fields))
unfolding is_object
Object-cases (object fields) = inr (fields, refl)
Object-cases null = inl refl
Object-cases (boolean b) = inl refl
Object-cases (number n) = inl refl
Object-cases (text s) = inl refl
Object-cases (array items) = inl refl

plain_base : (base overlay : Json) → is_object base ≡ false → deep_merge base overlay ≡ overlay
unfolding deep_merge is_object
plain_base (object fields) overlay h = cc
plain_base null overlay h = refl
plain_base (boolean b) overlay h = refl
plain_base (number n) overlay h = refl
plain_base (text s) overlay h = refl
plain_base (array items) overlay h = refl

plain_overlay :
    (base overlay : Json) → is_object overlay ≡ false → deep_merge base overlay ≡ overlay
unfolding deep_merge is_object
plain_overlay base (object fields) h = cc
plain_overlay base overlay h = elim (Object-cases base) [
  | inl plain ↦ plain_base base overlay plain
  | inr (fields, e) ↦ rw e refl
]

placed-deep_merge :
    (old value : Json)
    → placed (some old) (λ base_value. deep_merge base_value value) value ≡ deep_merge old value
unfolding placed
placed-deep_merge old value = elim (Bool-cases (is_object old)) [
  | inl map ↦ elim (Bool-cases (is_object value)) [
    | inl both ↦ rw (map, both) refl
    | inr plain ↦ rw (map, plain) (sym (plain_overlay old value plain))
  ]
  | inr plain ↦ rw plain (sym (plain_base old value plain))
]

-- The field that a merge leaves, from the fields that there were.
merged_field : Option Json → Option Json → Option Json
merged_field old none = old
merged_field none (some value) = some value
merged_field (some base_value) (some value) = some (deep_merge base_value value)

merged_field-some :
    (old : Option Json) (value : Json)
    → some (placed old (λ base_value. deep_merge base_value value) value)
      ≡ merged_field old (some value)
unfolding merged_field
merged_field-some none value = unfold placed in refl
merged_field-some (some base_value) value = ap some (placed-deep_merge base_value value)

get_field-merge_fields :
    (k : String) (base overlay : JsonFields)
    → IsUnique overlay
    → get_field k (merge_fields base overlay)
      ≡ merged_field (get_field k base) (get_field k overlay)
unfolding merge_fields get_field merged_field IsUnique
get_field-merge_fields k base end u = refl
get_field-merge_fields k base (field key value rest) (alone, m, u) =
    let value' = placed (get_field key base) (λ base_value. deep_merge base_value value) value in
    let later = get_field-merge_fields k (set_field key value' base) rest u in
    elim (Bool-cases (str_eq key k)) [
      | inl same ↦
          let e = (str_eq_iff key k).0 same in
          rw (later, get_field-set_field key k value' base, same)
            (rw (sym e, alone) (merged_field-some (get_field key base) value))
      | inr other ↦ rw (later, get_field-set_field key k value' base, other) refl
    ]

get_field-IsMap :
    (k : String) (fields : JsonFields) (v : Json)
    → IsUnique fields
    → get_field k fields ≡ some v
    → IsMap v
unfolding get_field IsUnique
get_field-IsMap k end v u h = cc
get_field-IsMap k (field key value rest) v (alone, m, u) h = elim (Bool-cases (str_eq key k)) [
  | inl same ↦ subst IsMap (some_inj (rw same at h)) m
  | inr other ↦ get_field-IsMap k rest v u (rw other at h)
]

value_at-object :
    (k : String) (ks : List String) (v w : Json)
    → value_at (k ∷ ks) v ≡ some w
    → (fields : JsonFields) × (v ≡ object fields)
value_at-object k ks (object fields) w h = (fields, refl)
value_at-object k ks null w h = cc
value_at-object k ks (boolean b) w h = cc
value_at-object k ks (number n) w h = cc
value_at-object k ks (text s) w h = cc
value_at-object k ks (array items) w h = cc

-- Whether a field of the overlay decides, given what holds of its value.
field_decides :
    (path : List String) (old o : Option Json) (v : Json)
    → ((w : Json) → o ≡ some w → IsMap w)
    → and_then o (value_at path) ≡ some v
    → ((b w : Json) → IsMap w → value_at path w ≡ some v → value_at path (deep_merge b w) ≡ some v)
    → and_then (merged_field old o) (value_at path) ≡ some v
unfolding merged_field
field_decides path old none v maps h deeper = absurd (cc h)
field_decides path none (some w) v maps h deeper = h
field_decides path (some b) (some w) v maps h deeper = deeper b w (maps w refl) h

object_decides :
    (k : String) (path : List String) (base v : Json) (os : JsonFields)
    → IsMap (object os)
    → value_at (k ∷ path) (object os) ≡ some v
    → ((b w : Json) → IsMap w → value_at path w ≡ some v → value_at path (deep_merge b w) ≡ some v)
    → value_at (k ∷ path) (deep_merge base (object os)) ≡ some v
unfolding IsMap deep_merge
object_decides k path base v os u there deeper = elim (Object-cases base) [
  | inl plain ↦ rw (plain_base base (object os) plain) there
  | inr (bs, e) ↦
      rw (e, get_field-merge_fields k bs os u)
        (field_decides path (get_field k bs) (get_field k os) v (λ w. get_field-IsMap k os w u)
          there deeper)
]

-- A value of the overlay that is no object stands in the result.
pub overlay_decides :
    (path : List String) (base overlay v : Json)
    → IsMap overlay
    → value_at path overlay ≡ some v
    → is_object v ≡ false
    → value_at path (deep_merge base overlay) ≡ some v
overlay_decides [] base overlay v m h plain =
    ap some (plain_overlay base overlay (subst (λ w. is_object w ≡ false) (sym (some_inj h)) plain))
    ∙ h
overlay_decides (k ∷ ks) base overlay v m h plain =
    let (os, e) = value_at-object k ks overlay v h in
    subst (λ o. value_at (k ∷ ks) (deep_merge base o) ≡ some v) (sym e)
      (object_decides k ks base v os (subst IsMap e m) (rw e at h)
        (λ b w m' h'. overlay_decides ks b w v m' h' plain))

field_none :
    (path : List String) (o : Option Json)
    → (elim o [ none ↦ true | some v ↦ leaves_open path v ]) ≡ true
    → ((v : Json) → leaves_open path v ≡ true → value_at path v ≡ none)
    → and_then o (value_at path) ≡ none
field_none path none h deeper = refl
field_none path (some v) h deeper = deeper v h

-- Nothing is found where a path is left open.
leaves_open-none :
    (path : List String) (v : Json) → leaves_open path v ≡ true → value_at path v ≡ none
leaves_open-none [] v h = cc
leaves_open-none (k ∷ ks) (object fields) h =
    field_none ks (get_field k fields) h (leaves_open-none ks)
leaves_open-none (k ∷ ks) null h = refl
leaves_open-none (k ∷ ks) (boolean b) h = refl
leaves_open-none (k ∷ ks) (number n) h = refl
leaves_open-none (k ∷ ks) (text s) h = refl
leaves_open-none (k ∷ ks) (array items) h = refl

plain-none :
    (k : String) (ks : List String) (v : Json) → is_object v ≡ false → value_at (k ∷ ks) v ≡ none
unfolding is_object
plain-none k ks (object fields) h = cc
plain-none k ks null h = refl
plain-none k ks (boolean b) h = refl
plain-none k ks (number n) h = refl
plain-none k ks (text s) h = refl
plain-none k ks (array items) h = refl

leaves_open-object :
    (k : String) (ks : List String) (v : Json)
    → leaves_open (k ∷ ks) v ≡ true
    → (fields : JsonFields) × (v ≡ object fields)
leaves_open-object k ks (object fields) h = (fields, refl)
leaves_open-object k ks null h = cc
leaves_open-object k ks (boolean b) h = cc
leaves_open-object k ks (number n) h = cc
leaves_open-object k ks (text s) h = cc
leaves_open-object k ks (array items) h = cc

field_keeps :
    (path : List String) (old o : Option Json)
    → ((w : Json) → o ≡ some w → IsMap w)
    → (elim o [ none ↦ true | some w ↦ leaves_open path w ]) ≡ true
    → ((b w : Json)
        → IsMap w
        → leaves_open path w ≡ true
        → value_at path (deep_merge b w) ≡ value_at path b)
    → and_then (merged_field old o) (value_at path) ≡ and_then old (value_at path)
unfolding merged_field
field_keeps path old none maps h deeper = refl
field_keeps path none (some w) maps h deeper = leaves_open-none path w h
field_keeps path (some b) (some w) maps h deeper = deeper b w (maps w refl) h

object_keeps :
    (k : String) (path : List String) (base : Json) (os : JsonFields)
    → IsMap (object os)
    → leaves_open (k ∷ path) (object os) ≡ true
    → ((b w : Json)
        → IsMap w
        → leaves_open path w ≡ true
        → value_at path (deep_merge b w) ≡ value_at path b)
    → value_at (k ∷ path) (deep_merge base (object os)) ≡ value_at (k ∷ path) base
unfolding IsMap deep_merge
object_keeps k path base os u left deeper = elim (Object-cases base) [
  | inl plain ↦
      rw (plain_base base (object os) plain)
        (leaves_open-none (k ∷ path) (object os) left ∙ sym (plain-none k path base plain))
  | inr (bs, e) ↦
      rw (e, get_field-merge_fields k bs os u)
        (field_keeps path (get_field k bs) (get_field k os) (λ w. get_field-IsMap k os w u) left
          deeper)
]

-- Where the overlay leaves the path open, the base stands.
pub base_decides :
    (path : List String) (base overlay : Json)
    → IsMap overlay
    → leaves_open path overlay ≡ true
    → value_at path (deep_merge base overlay) ≡ value_at path base
base_decides [] base overlay m h = cc
base_decides (k ∷ ks) base overlay m h =
    let (os, e) = leaves_open-object k ks overlay h in
    subst (λ o. value_at (k ∷ ks) (deep_merge base o) ≡ value_at (k ∷ ks) base) (sym e)
      (object_keeps k ks base os (subst IsMap e m) (rw e at h) (base_decides ks))
