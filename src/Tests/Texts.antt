-- ===== src/Tests/Texts.antt =====
-- The texts of paths, numbers, options and type names.
use redis_protobuf.Base.{
  ◌≡◌, refl, ◌↔◌, ◌≢◌, [], ◌∷◌, codes, List, Bytes, All, map, pos, negsuc, arith, true,
}
use redis_protobuf.Errors.{ok, err, empty_field}
use redis_protobuf.Utils
use redis_protobuf.Utils.{
  half32, half64, sv_to_int32, sv_to_int64, sv_to_uint32, sv_to_uint64, toupper, str_case_equal,
}
use redis_protobuf.Utils.Case.{str_case_equal_iff}
use redis_protobuf.Utils.Numbers.{sv_to_int32-digits, sv_to_uint32-digits, sv_to_uint64-minus}
use redis_protobuf.Options.{load}
use redis_protobuf.Options.Accepted.{Names, load_iff}
use redis_protobuf.Path.{parse_fields}
use redis_protobuf.Path.RoundTrip.{IsField, print, parse_fields-print, parse_fields_sound}
use redis_protobuf.Command.TypeName.{format_type}
use redis_protobuf.Command.TypeName.Format.{format_type-respelled}

two_fields : parse_fields (codes "/sub/xs") ≡ ok (codes "sub" ∷ codes "xs" ∷ [])
unfolding parse_fields
two_fields = refl

trailing_slash : parse_fields (codes "/sub/") ≡ err empty_field
unfolding parse_fields
trailing_slash = refl

digits_then_text : sv_to_int32 (codes " -12abc") ≡ ok (negsuc 11)
unfolding sv_to_int32 Utils.stoi Utils.parse_number Utils.checked
digits_then_text = refl

abbrev sub_xs : List Bytes
sub_xs = codes "sub" ∷ codes "xs" ∷ []

sub_xs-IsField : All IsField sub_xs
sub_xs-IsField = (
  (ground arith, (omega arith, (omega arith, (omega arith, tt)))),
  ((ground arith, (omega arith, (omega arith, tt))), tt),
)

parse_fields-print_example : parse_fields (print sub_xs) ≡ ok sub_xs
parse_fields-print_example = parse_fields-print sub_xs (ground arith) sub_xs-IsField

parse_fields_sound_example : (sub_xs ≢ []) × All IsField sub_xs × (print sub_xs ≡ codes "/sub/xs")
parse_fields_sound_example = parse_fields_sound (codes "/sub/xs") two_fields

nx_in_any_case :
    (str_case_equal (codes "--nX") (codes "--NX") ≡ true)
    ↔ (map toupper (codes "--nX") ≡ map toupper (codes "--NX"))
nx_in_any_case = str_case_equal_iff (codes "--nX") (codes "--NX")

int64_read : sv_to_int64 (codes "7") ≡ ok (pos 7)
unfolding sv_to_int64 Utils.stoll Utils.parse_number Utils.checked
int64_read = refl

abbrev big : Bytes
big = codes "4294967299"

twelve_read : sv_to_int32 (codes "12abc") ≡ ok (pos 12)
twelve_read =
    sv_to_int32-digits (codes "12") (codes "abc") (ground arith) (ground arith) refl (ground arith)

sv_to_uint32-digits_example : sv_to_uint32 big ≡ ok 3
sv_to_uint32-digits_example =
    sv_to_uint32-digits big [] (ground arith) (ground arith) refl (ground arith)

minus_one_read : sv_to_uint64 (codes "-1") ≡ ok 18446744073709551615
minus_one_read = sv_to_uint64-minus (codes "1") [] (ground arith) (ground arith) refl (ground arith)

dots_respelled : format_type (codes "a.b.C") ≡ codes "a::b::C"
dots_respelled = format_type-respelled (codes "a.b.C")

-- --DIR '' --dir p
abbrev two_dirs : List Bytes
two_dirs = codes "--DIR" ∷ [] ∷ codes "--dir" ∷ codes "p" ∷ []

load_iff_example :
    (load two_dirs ≡ ok (codes "p")) ↔ ((codes "p" ≢ []) × Names two_dirs (codes "p"))
load_iff_example = load_iff two_dirs (codes "p")

two_dirs_accepted : load two_dirs ≡ ok (codes "p")
unfolding load Utils.str_case_equal
two_dirs_accepted = refl
