-- ===== src/Integrations/Slog/Total.antt =====
-- integrations/slog/handler.go: when a record is handled without a panic.
use duckbug_go.Base.{
  String, str_eq, Bool, true, false, ◌&&◌, Option, none, some, List, [], ◌∷◌, ◌≡◌, refl, inl, inr,
  Bool-cases, if◌then◌else◌,
}
use duckbug_go.Text.{Unicode}
use duckbug_go.Value.{
  Value, null, str, bool, int, float, number, shown, strings, ints, list, nil_map, string_map,
  int_map, maps, pointer, nil_pointer, other_map, other_list, opaque, Fields, end, field, insert,
  lookup,
}
use duckbug_go.Core.Util.{Reflection}
use duckbug_go.Core.Duck.{Circumstances}
use duckbug_go.Integrations.Slog.Attrs.{
  SlogValue, any_value, bool_value, duration_value, float_value, int_value, string_value,
  time_value, uint_value, valuer, group, Attrs, no_attrs, attr, resolve, is_nil_value, Target,
  ◌>>=◌, write_key, inner_of, within, at_groups, leaf_value, assign_attr, assign_all, value_to_any,
  add_attr, add_attrs,
}
use duckbug_go.Integrations.Slog.{
  Record, Handler, Handled, sdk_enabled, payload_of, forward, handle,
}

-- A value that is no nil map and holds none in a map, at any depth of maps.
abbrev mutual
  pub NoNil : Value → Type 0
  NoNil nil_map = ⊥
  NoNil (Value.map fs) = NoNilFields fs
  NoNil v = Unit

  pub NoNilFields : Fields → Type 0
  NoNilFields end = Unit
  NoNilFields (field k v fs) = NoNil v × NoNilFields fs

abbrev mutual
  pub NoNilAttr : SlogValue → Type 0
  NoNilAttr (any_value v) = NoNil v
  NoNilAttr (valuer v) = NoNilAttr v
  NoNilAttr (group items) = NoNilAttrs items
  NoNilAttr v = Unit

  pub NoNilAttrs : Attrs → Type 0
  NoNilAttrs no_attrs = Unit
  NoNilAttrs (attr key value items) = NoNilAttr value × NoNilAttrs items

abbrev pub NoNilList : List (String × SlogValue) → Type 0
NoNilList [] = Unit
NoNilList ((key, value) ∷ attrs) = NoNilAttr value × NoNilList attrs

insert-NoNil :
    (k : String) (v : Value) (fs : Fields) → NoNil v → NoNilFields fs → NoNilFields (insert k v fs)
unfolding insert
insert-NoNil k v end i h = (i, tt)
insert-NoNil k v (field j w fs) i h = elim (Bool-cases (str_eq j k)) [
  | inl e ↦ rw e (i, h.1)
  | inr e ↦ rw e (h.0, insert-NoNil k v fs i h.1)
]

abbrev OptNoNil : Option Value → Type 0
OptNoNil none = Unit
OptNoNil (some v) = NoNil v

lookup-NoNil : (k : String) (fs : Fields) → NoNilFields fs → OptNoNil (lookup k fs)
unfolding lookup
lookup-NoNil k end h = tt
lookup-NoNil k (field j v fs) h = elim (Bool-cases (str_eq j k)) [
  | inl e ↦ rw e h.0
  | inr e ↦ rw e (lookup-NoNil k fs h.1)
]

-- A step that ends with a map without nil maps.
abbrev Ends : Option Target → Type 0
Ends o = (m : Fields) × (o ≡ some (some m)) × NoNilFields m

-- A change that leads from maps without nil maps to such maps.
abbrev Runs : (Target → Option Target) → Type 0
Runs f = (m : Fields) → NoNilFields m → Ends (f (some m))

abbrev Inner : Target → Type 0
Inner t = (m : Fields) × (t ≡ some m) × NoNilFields m

inner_of-Inner : (o : Option Value) → OptNoNil o → Inner (inner_of o)
inner_of-Inner none h = (end, refl, tt)
inner_of-Inner (some nil_map) h = elim h [ ]
inner_of-Inner (some (Value.map m)) h = (m, refl, h)
inner_of-Inner (some null) h = (end, refl, tt)
inner_of-Inner (some (str x)) h = (end, refl, tt)
inner_of-Inner (some (bool x)) h = (end, refl, tt)
inner_of-Inner (some (int x)) h = (end, refl, tt)
inner_of-Inner (some (float x)) h = (end, refl, tt)
inner_of-Inner (some (number x)) h = (end, refl, tt)
inner_of-Inner (some (shown x)) h = (end, refl, tt)
inner_of-Inner (some (strings x)) h = (end, refl, tt)
inner_of-Inner (some (ints x)) h = (end, refl, tt)
inner_of-Inner (some (list x)) h = (end, refl, tt)
inner_of-Inner (some (string_map x)) h = (end, refl, tt)
inner_of-Inner (some (int_map x)) h = (end, refl, tt)
inner_of-Inner (some (maps x)) h = (end, refl, tt)
inner_of-Inner (some (pointer x)) h = (end, refl, tt)
inner_of-Inner (some nil_pointer) h = (end, refl, tt)
inner_of-Inner (some (other_map x)) h = (end, refl, tt)
inner_of-Inner (some (other_list x)) h = (end, refl, tt)
inner_of-Inner (some (opaque x)) h = (end, refl, tt)

write-Runs : (k : String) (v : Value) → NoNil v → Runs (write_key k v)
unfolding write_key
write-Runs k v i m h = (insert k v m, refl, insert-NoNil k v m i h)

bind-Ends : (o : Option Target) (f : Target → Option Target) → Ends o → Runs f → Ends (o >>= f)
bind-Ends o f (m, e, h) g = rw e (g m h)

within-Runs : (k : String) (f : Target → Option Target) → Runs f → Runs (within k f)
unfolding write_key
within-Runs k f g m h =
    let (x, e, i) = inner_of-Inner (lookup k m) (lookup-NoNil k m h) in
    let (y, d, j) = g x i in
    rw (e, d) (insert k (Value.map y) m, refl, insert-NoNil k (Value.map y) m j h)

if-Runs :
    (b : Bool) (f g : Target → Option Target)
    → Runs f
    → Runs g
    → (m : Fields) → NoNilFields m
    → Ends (if b then f (some m) else g (some m))
if-Runs true f g i j m h = i m h
if-Runs false f g i j m h = j m h

at_groups-Runs :
    (groups : List String) (f : Target → Option Target) → Runs f → Runs (at_groups groups f)
unfolding at_groups
at_groups-Runs [] f g m h = g m h
at_groups-Runs (x ∷ groups) f g m h =
    let rest = at_groups-Runs groups f g in
    if-Runs (str_eq x "") (at_groups groups f) (within x (at_groups groups f)) rest
      (within-Runs x (at_groups groups f) rest) m h

kept-Runs : Runs (λ t. some t)
kept-Runs m h = (m, refl, h)

leaf-Runs :
    (k : String) (v : Value) (m : Fields)
    → NoNil v
    → NoNilFields m
    → Ends (if str_eq k "" then some (some m) else write_key k v (some m))
leaf-Runs k v m i h =
    if-Runs (str_eq k "") (λ t. some t) (write_key k v) kept-Runs (write-Runs k v i) m h

-- A value that is found, and holds no nil map.
abbrev Found : Option Value → Type 0
Found o = (v : Value) × (o ≡ some v) × NoNil v

mutual
  unfolding assign_attr leaf_value

  assign_attr-Runs : (k : String) (v : SlogValue) → NoNilAttr v → Runs (assign_attr k v)
  assign_attr-Runs k (group items) i m h =
      if-Runs (str_eq k "") (assign_all items) (within k (assign_all items))
        (assign_all-Runs items i) (within-Runs k (assign_all items) (assign_all-Runs items i)) m h
  assign_attr-Runs k (valuer v) i m h =
      let (x, e, j) = value-Found v i in rw e (leaf-Runs k x m j h)
  assign_attr-Runs k (any_value v) i m h = leaf-Runs k v m i h
  assign_attr-Runs k (bool_value b) i m h = leaf-Runs k _ m tt h
  assign_attr-Runs k (duration_value s) i m h = leaf-Runs k _ m tt h
  assign_attr-Runs k (float_value x) i m h = leaf-Runs k _ m tt h
  assign_attr-Runs k (int_value x) i m h = leaf-Runs k _ m tt h
  assign_attr-Runs k (string_value s) i m h = leaf-Runs k _ m tt h
  assign_attr-Runs k (time_value s) i m h = leaf-Runs k _ m tt h
  assign_attr-Runs k (uint_value n) i m h = leaf-Runs k _ m tt h

  assign_all-Runs : (items : Attrs) → NoNilAttrs items → Runs (assign_all items)
  assign_all-Runs no_attrs i m h = (m, refl, h)
  assign_all-Runs (attr k v items) i m h =
      bind-Ends (assign_attr k v (some m)) (assign_all items) (assign_attr-Runs k v i.0 m h)
        (assign_all-Runs items i.1)

  value-Found : (v : SlogValue) → NoNilAttr v → Found (value_to_any v)
  value-Found (any_value v) i = (v, refl, i)
  value-Found (bool_value b) i = (_, refl, tt)
  value-Found (duration_value s) i = (_, refl, tt)
  value-Found (float_value x) i = (_, refl, tt)
  value-Found (int_value x) i = (_, refl, tt)
  value-Found (string_value s) i = (_, refl, tt)
  value-Found (time_value s) i = (_, refl, tt)
  value-Found (uint_value n) i = (_, refl, tt)
  value-Found (valuer v) i = value-Found v i
  value-Found (group items) i =
      let (m, e, h) = assign_all-Runs items i end tt in rw e (Value.map m, refl, h)

resolve-NoNilAttr : (v : SlogValue) → NoNilAttr v → NoNilAttr (resolve v)
unfolding resolve
resolve-NoNilAttr (valuer v) i = resolve-NoNilAttr v i
resolve-NoNilAttr (any_value v) i = i
resolve-NoNilAttr (bool_value b) i = tt
resolve-NoNilAttr (duration_value s) i = tt
resolve-NoNilAttr (float_value x) i = tt
resolve-NoNilAttr (int_value x) i = tt
resolve-NoNilAttr (string_value s) i = tt
resolve-NoNilAttr (time_value s) i = tt
resolve-NoNilAttr (uint_value n) i = tt
resolve-NoNilAttr (group items) i = i

add_attr-Runs :
    (groups : List String) (k : String) (v : SlogValue) → NoNilAttr v → Runs (add_attr groups k v)
unfolding add_attr
add_attr-Runs groups k v i =
    if-Runs (str_eq k "" && is_nil_value (resolve v)) (λ t. some t)
      (at_groups groups (assign_attr k (resolve v))) kept-Runs
      (at_groups-Runs groups (assign_attr k (resolve v))
        (assign_attr-Runs k (resolve v) (resolve-NoNilAttr v i)))

add_attrs-Runs :
    (groups : List String) (attrs : List (String × SlogValue))
    → NoNilList attrs
    → Runs (add_attrs groups attrs)
unfolding add_attrs
add_attrs-Runs groups [] i m h = (m, refl, h)
add_attrs-Runs groups ((k, v) ∷ attrs) i m h =
    bind-Ends (add_attr groups k v (some m)) (add_attrs groups attrs)
      (add_attr-Runs groups k v i.0 m h) (add_attrs-Runs groups attrs i.1)

module _ {H : Type 0} where
  payload_of-Ends :
      (h : Handler H) (r : Record) → NoNilList h.attrs → NoNilList r.attrs → Ends (payload_of h r)
  unfolding payload_of
  payload_of-Ends h r i j =
      bind-Ends (add_attrs h.groups h.attrs (some end)) (add_attrs h.groups r.attrs)
        (add_attrs-Runs h.groups h.attrs i end tt) (add_attrs-Runs h.groups r.attrs j)

  -- A record is handled without a panic, and is handed on to the next handler, if there is one, as it came,
  -- whether that handler is enabled for its level or not, as long as no attribute of the handler or the record
  -- is a nil map or holds one in a map.
  pub handle_total :
      ⦃u : Unicode⦄ ⦃f : Reflection⦄ (c : Circumstances) (r : Record) (h : Handler H)
      → NoNilList h.attrs
      → NoNilList r.attrs
      → (x : Handled H) × (handle c r h ≡ some x) × (x.forwarded ≡ forward h.next r)
  unfolding handle
  handle_total c r h i j = elim (Bool-cases (sdk_enabled h.duck r.level h.min_level)) [
    | inl e ↦ let (m, p, q) = payload_of-Ends h r i j in rw (e, p) (_, refl, refl)
    | inr e ↦ rw e (_, refl, refl)
  ]
