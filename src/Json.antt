-- ===== src/Json.antt =====
-- JSON values, as the stores keep them in their `*_json` columns (src/sovereign_ai/kernel). A value
-- that is written by `json.dumps` and read back by `json.loads` is taken to be the same value.
use package.text.Mathlib.Text.{is_le, is_eq}
use Prim.Native.String.{compare}
use Prim.Native.Nat.{Ordering}
use achilles.Prelude.{
  ℕ, String, Bool, Option, none, some, ◌==◌, if◌then◌else◌, ◌≡◌, refl, true, false, eq_iff,
  Bool-cases, inl, inr,
}

mutual
  pub data Json : Type 0 where
    null : Json
    boolean : Bool → Json
    number : ℕ → Json
    text : String → Json
    array : Items → Json
    object : Fields → Json

  pub data Items : Type 0 where
    nil : Items
    cons : Json → Items → Items

  pub data Fields : Type 0 where
    end : Fields
    field : String → Json → Fields → Fields

-- d.get(k)
unfoldable pub get : Fields → String → Option Json
get end k = none
get (field j v fs) k = if j == k then some v else get fs k

-- d[k] = v: an old key keeps its place
unfoldable pub put : String → Json → Fields → Fields
put k v end = field k v end
put k v (field j w fs) = if j == k then field k v fs else field j w (put k v fs)

-- {**d, **e}
unfoldable pub merge : Fields → Fields → Fields
unfolding put
merge d end = d
merge d (field k v fs) = merge (put k v d) fs

-- A field before the first one whose key is not smaller, as `sort_keys=True` orders them.
unfoldable pub insert_field : String → Json → Fields → Fields
insert_field k v end = field k v end
insert_field k v (field j w fs) =
    if is_le (compare k j) then field k v (field j w fs) else field j w (insert_field k v fs)

-- The value that `json.dumps` with `sort_keys=True` writes down: every object has its keys in order.
unfoldable mutual
  unfolding insert_field

  pub sorted : Json → Json
  sorted null = null
  sorted (boolean b) = boolean b
  sorted (number n) = number n
  sorted (text s) = text s
  sorted (array xs) = array (sorted_items xs)
  sorted (object fs) = object (sorted_fields fs)

  pub sorted_items : Items → Items
  sorted_items nil = nil
  sorted_items (cons v xs) = cons (sorted v) (sorted_items xs)

  pub sorted_fields : Fields → Fields
  sorted_fields end = end
  sorted_fields (field k v fs) = insert_field k (sorted v) (sorted_fields fs)

is_le-is_eq : (j k : String) → j == k ≡ true → is_le (compare j k) ≡ true
is_le-is_eq j k h = go (compare j k) h
  where
    go : (o : Ordering) → is_eq o ≡ true → is_le o ≡ true
    go Ordering.lt h = refl
    go Ordering.eq h = refl
    go Ordering.gt h = cc (h)

get-insert_field :
    (k : String) (v : Json) (fs : Fields) (q : String)
    → get (insert_field k v fs) q ≡ (if k == q then some v else get fs q)
unfolding get insert_field
get-insert_field k v end q = refl
get-insert_field k v (field j w fs) q = elim (Bool-cases (is_le (compare k j))) [
  | inl e ↦ rw e refl
  | inr n ↦ rw n (behind n (get-insert_field k v fs q))
]
  where
    behind :
        is_le (compare k j) ≡ false
        → get (insert_field k v fs) q ≡ (if k == q then some v else get fs q)
        → (if j == q then some w else get (insert_field k v fs) q)
          ≡ (if k == q then some v else if j == q then some w else get fs q)
    behind n h = elim (Bool-cases (k == q)) [
      | inr e ↦ rw (h, e) refl
      | inl e ↦ elim (Bool-cases (j == q)) [
        | inr f ↦ rw (h, e, f) refl
        | inl f ↦
            let same : k ≡ j = cc ((eq_iff k q).0 e, (eq_iff j q).0 f) in
            cc (n, is_le-is_eq k j ((eq_iff k j).1 same))
      ]
    ]

-- Writing a value down with its keys in order keeps what each key stands for.
pub get-sorted_fields :
    (fs : Fields) (k : String) (v : Json)
    → get fs k ≡ some v
    → get (sorted_fields fs) k ≡ some (sorted v)
unfolding get sorted_fields
get-sorted_fields end k v h = cc (h)
get-sorted_fields (field j w fs) k v h = elim (Bool-cases (j == k)) [
  | inl e ↦
      let same : w ≡ v = cc (rw e at h) in
      rw (get-insert_field j (sorted w) (sorted_fields fs) k, e, same) refl
  | inr n ↦
      rw (get-insert_field j (sorted w) (sorted_fields fs) k, n)
        (get-sorted_fields fs k v (rw n at h))
]
