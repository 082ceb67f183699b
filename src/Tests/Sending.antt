-- ===== src/Tests/Sending.antt =====
-- What a replica of the sample is sent.
use redis_protobuf.Base.{Bytes, arith, ◌≡◌, refl, List, [], ◌∷◌, codes}
use redis_protobuf.Utils.{str_case_equal, same_upper}
use redis_protobuf.ProtoFactory.{create, create_from, parse_into, is_json}
use redis_protobuf.ModuleApi.{open_existing, get_msg_by_key, catch_errors}
use redis_protobuf.Command.Args.{parse_key_path}
use redis_protobuf.Command.Set
use redis_protobuf.Command.Set.Args.{parse_args, parse_opts, parse_rest}
use redis_protobuf.Command.Len
use redis_protobuf.Command.Del
use redis_protobuf.Command.Registry.{pb_set, pb_len, pb_del, run_command}
use redis_protobuf.Command.Registry.Typed.Deleted.{Call, Event, command, expiry}
use redis_protobuf.Command.Server.Replica.{
  ends_in_error, perform, keys_after, keys_after_all, sent_on, SetsNoTime, IsWhole,
  keys_after-sent_on,
}
use redis_protobuf.Sample.{sample, sample_redis, one_key}

abbrev set_a : List Bytes → Call
set_a arguments = record {
  name = pb_set;
  command = codes "PB.SET";
  key = codes "a";
  arguments = arguments;
}

abbrev set_hi : Call
set_hi = set_a (codes "Node" ∷ codes "hi" ∷ [])

abbrev set_other : Call
set_other = set_a (codes "Other" ∷ codes "x" ∷ [])

-- PB.SET a Node hi, key c expires, PB.LEN a Node, PB.SET a Other x, which fails, PB.DEL a Node
abbrev events : List Event
events =
    command set_hi
    ∷ expiry (codes "c")
    ∷ command (record {
      name = pb_len;
      command = codes "PB.LEN";
      key = codes "a";
      arguments = codes "Node" ∷ [];
    })
    ∷ command set_other
    ∷ command (record {
      name = pb_del;
      command = codes "PB.DEL";
      key = codes "a";
      arguments = codes "Node" ∷ [];
    })
    ∷ []

set_hi-SetsNoTime : SetsNoTime sample sample_redis set_hi
unfolding parse_args parse_opts parse_rest str_case_equal same_upper
set_hi-SetsNoTime args e = ground arith

set_other-SetsNoTime : SetsNoTime sample sample_redis set_other
unfolding parse_args parse_opts parse_rest str_case_equal same_upper
set_other-SetsNoTime args e = ground arith

events-IsWhole : IsWhole sample sample_redis events one_key.keys
unfolding IsWhole keys_after perform ends_in_error run_command parse_args parse_opts parse_rest
    catch_errors Set.run Set.run_set Set.run_on open_existing Set.set_msg Set.replace_msg
    Set.set_value Set.expire_key get_msg_by_key create_from create parse_into is_json str_case_equal
    same_upper Len.run Len.run_on Len.len_at Del.run Del.run_on Del.del_existing Del.del_key
    parse_key_path
events-IsWhole = (
  (λ e. cc e, λ s. set_hi-SetsNoTime, refl, λ e. cc e),
  (
    tt,
    (
      (λ e. cc e, λ s. cc s, refl, λ e. refl),
      (
        (λ e. cc e, λ s. set_other-SetsNoTime, refl, λ e. refl),
        ((λ e. cc e, λ s. cc s, refl, λ e. cc e), tt),
      ),
    ),
  ),
)

keys_after-sent_on_example :
    keys_after_all sample sample_redis
      (sent_on sample sample_redis events one_key.keys)
      one_key.keys
    ≡ keys_after_all sample sample_redis events one_key.keys
keys_after-sent_on_example =
    keys_after-sent_on sample sample_redis events one_key.keys events-IsWhole
