-- ===== src/FieldRef/ReadOnly.antt =====
-- A const reference is made without a write, whatever the path and whether the path is good.
use redis_protobuf.Base.{◌≡◌, Option, none, some, List, [], ◌∷◌, Bytes, ℕ}
use redis_protobuf.Exec.Pure.{Pure, Pure-bind, pure_rules}
use redis_protobuf.Path.{FieldPath}
use redis_protobuf.Protobuf.{Protobuf, MapKey}
use redis_protobuf.FieldRef.{
  const_ref, Ref, Step, find_field, found, find_key, get_sub_msg, get_map_msg, lookup_key, descend,
  descend_index, select, advance, walk, construct,
}

module _ (P : Protobuf) where
  open P use {Field}

  found-Pure :
      (name : Bytes) (r : Ref P) (l : List (Step Field)) (o : Option Field)
      → Pure (found P name r l o)
  found-Pure name r l none = search pure_rules
  found-Pure name r l (some f) = search pure_rules

  find_field-Pure :
      (name : Bytes) (r : Ref P) (l : List (Step Field)) → Pure (find_field P name r l)
  unfolding find_field
  find_field-Pure name r l = search (pure_rules, found-Pure)

  find_key-Pure :
      (l : List (Step Field)) (f : Field) (name : Bytes) (k : MapKey)
      → Pure (find_key P const_ref l f name k)
  unfolding find_key
  find_key-Pure l f name k = search pure_rules

  descend_index-Pure : (r : Ref P) (i : Option ℕ) → Pure (descend_index P const_ref r i)
  unfolding descend_index
  descend_index-Pure r none = search pure_rules
  descend_index-Pure r (some i) = search pure_rules

  lookup_key-Pure :
      (l : List (Step Field)) (f : Field) (k : MapKey) → Pure (lookup_key P const_ref l f k)
  unfolding lookup_key
  lookup_key-Pure l f k = search pure_rules

  get_map_msg-Pure :
      (l : List (Step Field)) (f : Field) (k : MapKey) → Pure (get_map_msg P const_ref l f k)
  get_map_msg-Pure l f k = unfold get_map_msg in search (pure_rules, lookup_key-Pure)

  descend-Pure : (r : Ref P) (k : Option MapKey) → Pure (descend P const_ref r k)
  descend-Pure r none = unfold descend in search (pure_rules, descend_index-Pure)
  descend-Pure r (some k) = unfold descend in search (pure_rules, get_map_msg-Pure)

  select-Pure : (r : Ref P) (name : Bytes) (o : Option Field) → Pure (select P const_ref r name o)
  unfolding select get_sub_msg
  select-Pure r name none = search (pure_rules, find_field-Pure)
  select-Pure r name (some f) = search (pure_rules, find_field-Pure, find_key-Pure) depth 8

  advance-Pure : (r : Ref P) (name : Bytes) → Pure (advance P const_ref r name)
  advance-Pure r name = unfold advance in search (pure_rules, descend-Pure, select-Pure)

  walk-Pure : (r : Ref P) (names : List Bytes) → Pure (walk P const_ref r names)
  unfolding walk
  walk-Pure r [] = search pure_rules
  walk-Pure r (name ∷ names) =
      Pure-bind (advance P const_ref r name) (λ r'. walk P const_ref r' names) (advance-Pure r name)
        (λ r'. walk-Pure r' names)

  -- Making a const reference leaves the message as it is: on every path, also one that fails halfway.
  pub construct-Pure :
      (path : FieldPath) (root : P.Msg) → (construct P const_ref path root).1 ≡ root
  construct-Pure path root =
      let p : Pure (construct P const_ref path) =
        unfold construct in search (pure_rules, walk-Pure) in
      p.at root
