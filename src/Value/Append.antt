-- ===== src/Value/Append.antt =====
-- Go's maps built entry by entry.
use duckbug_go.Base.{String, none, ◌≡◌, refl, ap, arith, eq_iff}
use duckbug_go.Value.{Value, Fields, end, field, insert, lookup}

-- The entries of one map behind those of another.
unfoldable pub append : Fields → Fields → Fields
append end gs = gs
append (field k v fs) gs = field k v (append fs gs)

pub insert_new :
    (k : String) (v : Value) (out : Fields)
    → lookup k out ≡ none
    → insert k v out ≡ append out (field k v end)
unfolding insert append lookup
insert_new k v end e = refl
insert_new k v (field j w out) e = ground (arith, insert_new k v out)

pub append_assoc : (a b c : Fields) → append (append a b) c ≡ append a (append b c)
unfolding append
append_assoc end b c = refl
append_assoc (field k v a) b c = ap (field k v) (append_assoc a b c)

pub append-end : (a : Fields) → append a end ≡ a
unfolding append
append-end end = refl
append-end (field k v a) = ap (field k v) (append-end a)

lookup-append :
    (k : String) (a b : Fields)
    → lookup k a ≡ none
    → lookup k b ≡ none
    → lookup k (append a b) ≡ none
unfolding append lookup
lookup-append k end b ea eb = eb
lookup-append k (field j v a) b ea eb = ground (arith, lookup-append k a b)

-- None of the keys of the second map is in the first.
abbrev pub Apart : Fields → Fields → Type 0
Apart out end = Unit {0}
Apart out (field k v fs) = (lookup k out ≡ none) × Apart out fs

pub Apart-append :
    (k : String) (v : Value) (out fs : Fields)
    → lookup k fs ≡ none
    → Apart out fs
    → Apart (append out (field k v end)) fs
unfolding lookup
Apart-append k v out end e a = tt
Apart-append k v out (field j w fs) e a = (
  lookup-append j out (field k v end) a.0 (ground (arith, eq_iff j k, eq_iff k j)),
  Apart-append k v out fs (ground arith) a.1,
)

pub Apart-end : (fs : Fields) → Apart end fs
unfolding lookup
Apart-end end = tt
Apart-end (field k v fs) = (refl, Apart-end fs)
