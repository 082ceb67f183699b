-- ===== src/Command/Registry/Local/Keys.antt =====
-- The key that the parsers of the arguments find.
use redis_protobuf.Base.{◌≡◌, List, [], ◌∷◌, Bytes, arith}
use redis_protobuf.Errors.{ok, >>=-ok}
use redis_protobuf.Command.Args.{KeyPath, parse_key_path}
use redis_protobuf.Command.Set.Args as SetArgs
use redis_protobuf.Command.Append
use redis_protobuf.Command.Merge

-- The parsers of the arguments take the key from the second argument.
pub set_rest-key :
    (key : Bytes) (o : SetArgs.Options) (l : List Bytes) {args : SetArgs.SetArgs}
    → SetArgs.parse_rest key o l ≡ ok args
    → args.key_name ≡ key
unfolding SetArgs.parse_rest
set_rest-key key o [] h = cc h
set_rest-key key o (a ∷ []) h = cc h
set_rest-key key o (a ∷ b ∷ []) h = ground arith
set_rest-key key o (a ∷ b ∷ c ∷ []) h = ground arith
set_rest-key key o (a ∷ b ∷ c ∷ d ∷ l) h = cc h

pub set_args-key :
    (cmd key : Bytes) (rest : List Bytes) {args : SetArgs.SetArgs}
    → SetArgs.parse_args (cmd ∷ key ∷ rest) ≡ ok args
    → args.key_name ≡ key
unfolding SetArgs.parse_args
set_args-key cmd key [] h = cc h
set_args-key cmd key (a ∷ []) h = cc h
set_args-key cmd key (a ∷ b ∷ rest) h =
    let (r, e, k) = >>=-ok (SetArgs.parse_opts (a ∷ b ∷ rest) SetArgs.no_options) _ h in
    set_rest-key key r.0 r.1 k

pub key_path-key :
    (cmd key : Bytes) (rest : List Bytes) {args : KeyPath}
    → parse_key_path (cmd ∷ key ∷ rest) ≡ ok args
    → args.key_name ≡ key
unfolding parse_key_path
key_path-key cmd key [] h = cc h
key_path-key cmd key (a ∷ []) h = ground arith
key_path-key cmd key (a ∷ b ∷ []) h = ground arith
key_path-key cmd key (a ∷ b ∷ c ∷ l) h = cc h

pub append_args-key :
    (cmd key : Bytes) (rest : List Bytes) {args : Append.AppendArgs}
    → Append.parse_args (cmd ∷ key ∷ rest) ≡ ok args
    → args.key_name ≡ key
unfolding Append.parse_args
append_args-key cmd key [] h = cc h
append_args-key cmd key (a ∷ []) h = cc h
append_args-key cmd key (a ∷ b ∷ []) h = cc h
append_args-key cmd key (a ∷ b ∷ c ∷ l) h = ground arith

pub merge_args-key :
    (cmd key : Bytes) (rest : List Bytes) {args : Merge.MergeArgs}
    → Merge.parse_args (cmd ∷ key ∷ rest) ≡ ok args
    → args.key_name ≡ key
unfolding Merge.parse_args
merge_args-key cmd key [] h = cc h
merge_args-key cmd key (a ∷ []) h = cc h
merge_args-key cmd key (a ∷ b ∷ []) h = ground arith
merge_args-key cmd key (a ∷ b ∷ c ∷ []) h = ground arith
merge_args-key cmd key (a ∷ b ∷ c ∷ d ∷ l) h = cc h
