-- ===== src/Command/Registry/ReadOnly.antt =====
-- The commands that are registered as "readonly".
use redis_protobuf.Base.{◌≡◌, refl, ◌∙◌, Bool, true, false, Option, none, some, List, Bytes}
use redis_protobuf.Errors.{Outcome, ok, err, abort}
use redis_protobuf.Exec.{Exec, lift, ◌>>=◌, continue}
use redis_protobuf.Protobuf.{Protobuf}
use redis_protobuf.ModuleApi.{
  Redis, World, Reply, reply, answered, catch_errors, KeyMode, open_existing, get_msg_by_key,
}
use redis_protobuf.Command.Args.{KeyPath}
use redis_protobuf.Command.Get
use redis_protobuf.Command.Get.Args.{GetArgs}
use redis_protobuf.Command.Len
use redis_protobuf.Command.TypeName
use redis_protobuf.Command.Registry.{
  Name, pb_type, pb_get, pb_len, pb_schema, is_write, run_command,
}

module _ {Keys : Type 0} where
  -- Code that neither changes the keyspace nor replicates itself.
  record Reads {A : Type 0} (m : Exec (World Keys) A) : Type 0 where
    keys : (w : World Keys) → (m w).1.keys ≡ w.keys
    replicated : (w : World Keys) → (m w).1.replicated ≡ w.replicated

  Reads-reply : (a : Reply) → Reads (reply {Keys = Keys} a)
  Reads-reply a = record { keys = λ w. refl; replicated = λ w. refl }

  Reads-lift : {A : Type 0} (r : Outcome A) → Reads (lift {S = World Keys} r)
  Reads-lift r = record { keys = λ w. refl; replicated = λ w. refl }

  module _ {A B : Type 0} where
    Reads-bind :
        (m : Exec (World Keys) A) (f : A → Exec (World Keys) B)
        → Reads m
        → ((a : A) → Reads (f a))
        → Reads (m >>= f)
    Reads-bind m f km kf = record {
      keys = λ w. on_keys w (m w).0 ∙ km.keys w;
      replicated = λ w. on_replicated w (m w).0 ∙ km.replicated w;
    }
      where
        on_keys : (w : World Keys) (o : Outcome A) → (continue o f (m w).1).1.keys ≡ (m w).1.keys
        on_keys w (ok a) = (kf a).keys (m w).1
        on_keys w (err e) = refl
        on_keys w abort = refl

        on_replicated :
            (w : World Keys) (o : Outcome A)
            → (continue o f (m w).1).1.replicated ≡ (m w).1.replicated
        on_replicated w (ok a) = (kf a).replicated (m w).1
        on_replicated w (err e) = refl
        on_replicated w abort = refl

  Reads-catch : (m : Exec (World Keys) (Unit {0})) → Reads m → Reads (catch_errors m)
  unfolding catch_errors
  Reads-catch m k = record {
    keys = λ w. on_keys (m w).0 (m w).1 ∙ k.keys w;
    replicated = λ w. on_replicated (m w).0 (m w).1 ∙ k.replicated w;
  }
    where
      on_keys : (o : Outcome (Unit {0})) (v : World Keys) → (answered o v).1.keys ≡ v.keys
      on_keys (ok u) v = refl
      on_keys (err e) v = refl
      on_keys abort v = refl

      on_replicated :
          (o : Outcome (Unit {0})) (v : World Keys) → (answered o v).1.replicated ≡ v.replicated
      on_replicated (ok u) v = refl
      on_replicated (err e) v = refl
      on_replicated abort v = refl

module _ (P : Protobuf) (R : Redis P.Msg) where
  open_existing-Reads : (mode : KeyMode) (key : Bytes) → Reads (open_existing R mode key)
  unfolding open_existing
  open_existing-Reads mode key = record { keys = λ w. refl; replicated = λ w. refl }

  get_msg-Reads : (key : Bytes) → Reads (get_msg_by_key R key)
  unfolding get_msg_by_key
  get_msg-Reads key = record { keys = λ w. refl; replicated = λ w. refl }

  replying-Reads : (m : Exec (List Reply) (Unit {0})) → Reads (Get.replying P R m)
  replying-Reads m = record { keys = λ w. refl; replicated = λ w. refl }

  ruleset reads_rules = (
    Reads-reply, Reads-lift, Reads-bind, Reads-catch, open_existing-Reads, get_msg-Reads,
    replying-Reads,
  )

  get_on-Reads : (args : GetArgs) (found : Bool) → Reads (Get.run_on P R args found)
  unfolding Get.run_on
  get_on-Reads args false = search reads_rules
  get_on-Reads args true = search reads_rules

  len_on-Reads : (args : KeyPath) (found : Bool) → Reads (Len.run_on P R args found)
  unfolding Len.run_on
  len_on-Reads args false = search reads_rules
  len_on-Reads args true = search reads_rules

  type_on-Reads : (key : Bytes) (found : Bool) → Reads (TypeName.run_on P R key found)
  unfolding TypeName.run_on
  type_on-Reads key false = search reads_rules
  type_on-Reads key true = search reads_rules

  schema-Reads : (o : Option P.Descriptor) → Reads (TypeName.schema_of P R o)
  unfolding TypeName.schema_of
  schema-Reads none = search reads_rules
  schema-Reads (some desc) = search reads_rules

  reads :
      (name : Name) (argv : List Bytes) → is_write name ≡ false → Reads (run_command P R name argv)
  unfolding run_command
  reads pb_type argv e = unfold TypeName.run_type in search (reads_rules, type_on-Reads)
  reads pb_get argv e = unfold Get.run in search (reads_rules, get_on-Reads)
  reads pb_len argv e = unfold Len.run in search (reads_rules, len_on-Reads)
  reads pb_schema argv e = unfold TypeName.run_schema in search (reads_rules, schema-Reads)
  reads _ argv e = cc

  -- A command that is not registered as "write" leaves the keyspace as it is, does not replicate
  -- itself, and does so on every path, errors included.
  pub run_command-ReadOnly :
      (name : Name) (argv : List Bytes) (w : World R.Keys)
      → is_write name ≡ false
      → ((run_command P R name argv w).1.keys ≡ w.keys)
        × ((run_command P R name argv w).1.replicated ≡ w.replicated)
  run_command-ReadOnly name argv w e =
      ((reads name argv e).keys w, (reads name argv e).replicated w)
