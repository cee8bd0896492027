-- ===== src/Value/Entries.antt =====
-- Go's maps: `lookup` after `insert` and `delete`, and distinct keys.
use duckbug_go.Base.{
  String, str_eq, eq_iff, eq_refl, if◌then◌else◌, none, some, ◌≡◌, refl, arith, Bool-cases, inl,
  inr,
}
use duckbug_go.Value.{Value, Fields, end, field, lookup, insert, delete, IsMap, AllFields}

pub lookup-insert :
    (k j : String) (v : Value) (fs : Fields)
    → lookup j (insert k v fs) ≡ (if str_eq k j then some v else lookup j fs)
unfolding lookup insert
lookup-insert k j v end = refl
lookup-insert k j v (field i w fs) =
    ground (arith, eq_iff k j, eq_iff i k, eq_iff i j, lookup-insert k j v fs)

pub lookup-insert_self : (k : String) (v : Value) (fs : Fields) → lookup k (insert k v fs) ≡ some v
lookup-insert_self k v fs = simp (lookup-insert, eq_refl)

pub lookup-delete :
    (k j : String) (fs : Fields)
    → lookup j (delete k fs) ≡ (if str_eq k j then none else lookup j fs)
unfolding lookup delete
lookup-delete k j end = ground arith
lookup-delete k j (field i w fs) =
    ground (arith, eq_iff k j, eq_iff i k, eq_iff i j, lookup-delete k j fs)

pub insert-IsMap : (k : String) (v : Value) (fs : Fields) → IsMap fs → IsMap (insert k v fs)
unfolding insert lookup
insert-IsMap k v end h = (refl, tt)
insert-IsMap k v (field j w fs) h =
    ground (arith, eq_iff j k, eq_iff k j, lookup-insert k j v fs, insert-IsMap k v fs h.1)

pub delete-IsMap : (k : String) (fs : Fields) → IsMap fs → IsMap (delete k fs)
unfolding delete
delete-IsMap k end h = tt
delete-IsMap k (field j w fs) h =
    ground (arith, eq_iff j k, lookup-delete k j fs, delete-IsMap k fs h.1)

pub insert-AllFields :
    (P : String → Value → Type 0) (k : String) (v : Value) (fs : Fields)
    → P k v
    → AllFields P fs
    → AllFields P (insert k v fs)
unfolding insert
insert-AllFields P k v end p h = (p, tt)
insert-AllFields P k v (field j w fs) p h = elim (Bool-cases (str_eq j k)) [
  | inl e ↦ rw e (p, h.1)
  | inr e ↦ rw e (h.0, insert-AllFields P k v fs p h.1)
]

pub lookup-AllFields :
    (P : String → Value → Type 0) (k : String) (v : Value) (fs : Fields)
    → AllFields P fs
    → lookup k fs ≡ some v
    → P k v
unfolding lookup
lookup-AllFields P k v end h e = cc
lookup-AllFields P k v (field j w fs) h e = elim (Bool-cases (str_eq j k)) [
  | inl q ↦
      let ek : j ≡ k = (eq_iff j k).0 q in let ev : w ≡ v = ground arith in rw (← ek, ← ev) (h.0)
  | inr q ↦ lookup-AllFields P k v fs h.1 (ground arith)
]
