-- ===== src/Tests/Messages.antt =====
-- References to the fields of a message of the sample type.
use redis_protobuf.Base.{◌≡◌, refl, [], ◌∷◌, codes, Bytes, none, some, pos, arith}
use redis_protobuf.Errors.{ok, err, abort, map_value_not_message}
use redis_protobuf.Utils
use redis_protobuf.Path.{FieldPath}
use redis_protobuf.Protobuf.{int32, uint64, string_key, same_type}
use redis_protobuf.FieldRef.{
  sub, Ref, const_ref, mutable_ref, construct, walk, advance, descend, descend_index, select,
  find_field, parse_index, parse_key, map_key_type, map_value_type, read,
}
use redis_protobuf.FieldRef.Access.{
  get_value, set_value, get_repeated_value, set_repeated_value, get_mapped_value, set_mapped_value,
  del_array_element,
}
use redis_protobuf.FieldRef.Shape.{IsWellFormed, construct-WellFormed}
use redis_protobuf.FieldRef.ReadOnly.{construct-Pure}
use redis_protobuf.FieldRef.Delete.{elements, del-removes}
use redis_protobuf.FieldRef.RoundTrip.{
  get_value-set_value, get_repeated-set_repeated, get_mapped-set_mapped,
}
use redis_protobuf.FieldRef.Frame.{fields, here, left, get_value-set_apart}
use redis_protobuf.FieldRef.Faults.{construct-abort, construct_inserts}
use redis_protobuf.Sample.{sample, wide, nums, child, table, some_node}
use redis_protobuf.Sample.Apart.{sample-ApartLaws}
use redis_protobuf.Sample.Laws.{nums-RepeatedLaws, sample-AccessLaws}

abbrev path_of : Bytes → Bytes → FieldPath
path_of a b = record { type = codes "Node"; fields = a ∷ b ∷ [] }

abbrev nums_1 : Ref sample
nums_1 = record { loc = []; field_desc = some nums; arr_idx = some 1; map_key = none }

abbrev wide_ref : Ref sample
wide_ref = record { loc = []; field_desc = some wide; arr_idx = none; map_key = none }

abbrev new_key : Ref sample
new_key = record {
  loc = [];
  field_desc = some table;
  arr_idx = none;
  map_key = some (string_key (codes "new"));
}

nums_1_found :
    (construct sample mutable_ref (path_of (codes "nums") (codes "1")) some_node).0 ≡ ok nums_1
unfolding construct walk advance descend descend_index select find_field read parse_index Utils.stoi
    Utils.parse_number Utils.checked
nums_1_found = refl

construct-WellFormed_example :
    IsWellFormed sample nums_1
      (construct sample mutable_ref (path_of (codes "nums") (codes "1")) some_node).1
construct-WellFormed_example =
    construct-WellFormed sample mutable_ref (path_of (codes "nums") (codes "1")) some_node
      (ground arith) nums_1_found

construct-Pure_example :
    (construct sample const_ref (path_of (codes "child") (codes "text")) some_node).1 ≡ some_node
construct-Pure_example = construct-Pure sample (path_of (codes "child") (codes "text")) some_node

del-removes_example :
    elements sample int32 nums (del_array_element sample nums 0 some_node) ≡ pos 2 ∷ pos 3 ∷ []
del-removes_example = del-removes nums-RepeatedLaws 0 some_node (omega arith)

value_read_back :
    ((set_value sample uint64 wide_ref 9 some_node).0 ≡ ok tt)
    × ((get_value sample uint64 wide_ref (set_value sample uint64 wide_ref 9 some_node).1).0 ≡ ok 9)
value_read_back =
    get_value-set_value sample-AccessLaws uint64 wide_ref wide some_node 9 refl tt refl refl

abbrev child_wide : Ref sample
child_wide = record { loc = sub child ∷ []; field_desc = some wide; arr_idx = none; map_key = none }

get_value-set_apart_example :
    (get_value sample uint64 wide_ref (set_value sample uint64 child_wide 9 some_node).1).0
    ≡ (get_value sample uint64 wide_ref some_node).0
get_value-set_apart_example =
    get_value-set_apart sample-ApartLaws uint64 uint64 child_wide wide_ref wide wide some_node 9
      refl refl (refl, refl, tt) tt refl refl refl refl (left (here (fields (λ e. cc e) refl)))

element_read_back :
    ((set_repeated_value sample int32 nums_1 (pos 9) some_node).0 ≡ ok tt)
    × ((get_repeated_value sample int32 nums_1
          (set_repeated_value sample int32 nums_1 (pos 9) some_node).1).0
        ≡ ok (pos 9))
unfolding read
element_read_back =
    get_repeated-set_repeated sample-AccessLaws int32 nums_1 nums some_node (pos 9) refl tt 1 refl
      refl refl refl (omega arith)

get_mapped-set_mapped_example :
    ((set_mapped_value sample int32 new_key (pos 9) some_node).0 ≡ ok tt)
    × ((get_mapped_value sample int32 new_key
          (set_mapped_value sample int32 new_key (pos 9) some_node).1).0
        ≡ ok (pos 9))
unfolding map_value_type
get_mapped-set_mapped_example =
    get_mapped-set_mapped sample-AccessLaws int32 new_key table some_node (pos 9) refl tt
      (string_key (codes "new")) refl refl refl

construct-abort_example :
    (construct sample const_ref
      (record { type = codes "Node"; fields = codes "nums" ∷ codes "0" ∷ codes "x" ∷ [] })
      some_node).0
    ≡ abort
unfolding parse_index Utils.stoi Utils.parse_number Utils.checked same_type
construct-abort_example =
    construct-abort sample some_node (codes "nums") (codes "0") (codes "x") [] nums refl const_ref 0
      refl refl refl refl

construct_inserts_example :
    construct sample mutable_ref
      (record { type = codes "Node"; fields = codes "table" ∷ codes "new" ∷ codes "x" ∷ [] })
      some_node
    ≡ (
      err map_value_not_message,
      sample.insert_or_lookup some_node table (string_key (codes "new")),
    )
unfolding map_key_type map_value_type parse_key same_type
construct_inserts_example =
    construct_inserts sample some_node (codes "table") (codes "new") (codes "x") [] table refl
      (string_key (codes "new")) _ int32 refl refl refl refl refl
