-- ===== src/Tests/Handles.antt =====
-- Key handles on the keyspace of the sample.
use redis_protobuf.Base.{◌≡◌, ◌⊎◌, refl, All, [], ◌∷◌, codes, false}
use redis_protobuf.ModuleApi.{mode_bits, read_only}
use redis_protobuf.Command.Registry.{pb_append, pb_clear, is_write, run_command}
use redis_protobuf.Command.Registry.Opened.Signals.{
  IsSignalled, run_command-IsSignalled, clear_opens,
}
use redis_protobuf.Sample.{sample, sample_redis, one_key, some_node}

-- PB.APPEND a Node /nums 4
run_command-IsSignalled_example :
    (((run_command sample sample_redis pb_append
          (codes "PB.APPEND" ∷ codes "a" ∷ codes "Node" ∷ codes "/nums" ∷ codes "4" ∷ [])
          one_key).1.keys
        ≡ one_key.keys)
      ⊎ IsSignalled
          (codes "a")
          (run_command sample sample_redis pb_append
            (codes "PB.APPEND" ∷ codes "a" ∷ codes "Node" ∷ codes "/nums" ∷ codes "4" ∷ [])
            one_key).1.opened)
    × (is_write pb_append ≡ false
        → All (λ o. o.1 ≡ mode_bits read_only) one_key.opened
        → All
            (λ o. o.1 ≡ mode_bits read_only)
            (run_command sample sample_redis pb_append
              (codes "PB.APPEND" ∷ codes "a" ∷ codes "Node" ∷ codes "/nums" ∷ codes "4" ∷ [])
              one_key).1.opened)
run_command-IsSignalled_example =
    run_command-IsSignalled sample sample_redis pb_append (codes "PB.APPEND") (codes "a")
      (codes "Node" ∷ codes "/nums" ∷ codes "4" ∷ []) one_key (λ e. cc e)

-- PB.CLEAR a Node /nums
clear_opens_example :
    All
      (λ o. o.1 ≡ mode_bits read_only)
      (run_command sample sample_redis pb_clear
        (codes "PB.CLEAR" ∷ codes "a" ∷ codes "Node" ∷ codes "/nums" ∷ [])
        one_key).1.opened
    × ((run_command sample sample_redis pb_clear
          (codes "PB.CLEAR" ∷ codes "a" ∷ codes "Node" ∷ [])
          one_key).1.keys
        ≡ sample_redis.store one_key.keys (codes "a") (sample.clear some_node))
clear_opens_example =
    clear_opens sample sample_redis (codes "a") (codes "Node")
      (codes "PB.CLEAR" ∷ codes "a" ∷ codes "Node" ∷ codes "/nums" ∷ []) one_key some_node tt refl
      refl refl
