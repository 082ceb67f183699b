-- ===== src/Tests/Typing.antt =====
-- The type of a message over commands on the keyspace of the sample.
use redis_protobuf.Base.{
  ◌≡◌, refl, sym, some, Bool-cases, inl, inr, List, [], ◌∷◌, Bytes, codes, beq, beq→eq,
  beq_false→ne,
}
use redis_protobuf.Protobuf.{type_name}
use redis_protobuf.FieldRef.Typed.{TypeLaws}
use redis_protobuf.Command.Registry.{pb_set, pb_append, pb_del}
use redis_protobuf.Command.Registry.Typed.Stable.{ExpireLaws, Holds}
use redis_protobuf.Command.Registry.Typed.Deleted.{
  Event, command, expiry, Rests, run_event, run_events, run_events-Holds,
}
use redis_protobuf.Sample.{sample, sample_redis, NodeDescriptor, one_key, some_node}
use redis_protobuf.Tests.Serving.{sample-KeyspaceLaws}

named :
    (type : Bytes) {d : NodeDescriptor}
    → sample.find_message_type type ≡ some d
    → type_name sample (sample.new_message d) ≡ type
named type h = elim (Bool-cases (beq type (codes "Node"))) [
  | inl e ↦ sym (beq→eq type (codes "Node") e)
  | inr e ↦ cc (rw e at h)
]

sample-TypeLaws : TypeLaws sample
sample-TypeLaws = record {
  descriptor-set = λ t m f v. refl;
  descriptor-set_repeated = λ t m f i v. refl;
  descriptor-add = λ t m f v. refl;
  descriptor-swap = λ m f i k. refl;
  descriptor-remove_last = λ m f. refl;
  descriptor-map_set = λ t m f k v. refl;
  descriptor-insert = λ m f k. refl;
  descriptor-clear_field = λ m f. refl;
  descriptor-clear = λ m. refl;
  descriptor-merge = λ m other. refl;
  descriptor-parse = λ m s h. refl;
  descriptor-from_json = λ m s h. refl;
  type_name-new = λ type h. named type h;
}

sample-ExpireLaws : ExpireLaws sample_redis
sample-ExpireLaws = record { keyspace = sample-KeyspaceLaws; seen-expire_self = λ ks key ms. refl }

-- PB.SET a Other x, PB.APPEND a Node /nums 4, PB.DEL b Node, and key c expires
abbrev events : List Event
events =
    command (record {
      name = pb_set;
      command = codes "PB.SET";
      key = codes "a";
      arguments = codes "Other" ∷ codes "x" ∷ [];
    })
    ∷ command (record {
      name = pb_append;
      command = codes "PB.APPEND";
      key = codes "a";
      arguments = codes "Node" ∷ codes "/nums" ∷ codes "4" ∷ [];
    })
    ∷ command (record {
      name = pb_del;
      command = codes "PB.DEL";
      key = codes "b";
      arguments = codes "Node" ∷ [];
    })
    ∷ expiry (codes "c")
    ∷ []

run_events-Holds_example :
    Holds sample-TypeLaws sample-ExpireLaws
      (codes "a")
      (codes "Node")
      (run_events sample-TypeLaws sample-ExpireLaws events one_key).keys
    × ((e : Event)
        → Rests sample-TypeLaws sample-ExpireLaws
            (codes "a")
            (codes "Node")
            (run_event sample-TypeLaws sample-ExpireLaws e
              (run_events sample-TypeLaws sample-ExpireLaws events one_key)).keys)
run_events-Holds_example =
    run_events-Holds sample-TypeLaws sample-ExpireLaws events one_key (codes "a") some_node refl (
      (λ d. cc d.0),
      (
        (λ d. cc d.0),
        (
          (λ d. beq_false→ne (codes "b") (codes "a") refl d.1),
          ((λ d. beq_false→ne (codes "c") (codes "a") refl d), tt),
        ),
      ),
    )
