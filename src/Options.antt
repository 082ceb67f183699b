-- ===== src/Options.antt =====
-- options.cpp: the arguments with which the module is loaded.
pub mod Accepted
use redis_protobuf.Base.{
  ◌≡◌, refl, Bool, true, false, List, [], ◌∷◌, Bytes, codes, is_empty, if◌then◌else◌,
}
use redis_protobuf.Errors.{
  Outcome, ok, err, abort, duplicate_dir, dir_required, unknown_option, ◌>>=◌,
}
use redis_protobuf.Utils.{str_case_equal}

abbrev pub is_dir : Bytes → Bool
is_dir opt = str_case_equal opt (codes "--DIR")

-- The loop of Options::load, on the arguments from `idx` on, with `opts.proto_dir`. Behind a --DIR that
-- is the last argument, the code reads past the end of the arguments.
unfoldable pub load_rest : List Bytes → Bytes → Outcome Bytes
load_rest [] dir = ok dir
load_rest (a ∷ []) dir =
    if is_dir a then if is_empty dir then abort else err duplicate_dir else err (unknown_option a)
load_rest (a ∷ d ∷ rest) dir =
    let next = load_rest rest d in
    if is_dir a then if is_empty dir then next else err duplicate_dir else err (unknown_option a)

abbrev pub required : Bytes → Outcome Bytes
required dir = if is_empty dir then err dir_required else ok dir

-- Options::load: the directory
unfoldable pub load : List Bytes → Outcome Bytes
unfolding load_rest
load argv = load_rest argv [] >>= required
