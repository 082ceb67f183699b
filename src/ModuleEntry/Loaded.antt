-- ===== src/ModuleEntry/Loaded.antt =====
-- redis_protobuf.cpp and module_entry.cpp: what a module that is loaded has, and that the load ends.
use mathlib.Core.Path.{subst}
use redis_protobuf.Base.{
  ℕ, suc, ◌≡◌, ◌≢◌, refl, some, Option-cases, inl, inr, ◌⊎◌, List, [], ◌∷◌, Bytes,
}
use redis_protobuf.Errors.{
  Error, Outcome, ok, abort, init_failed, create_type_failed, Outcome-cases,
}
use redis_protobuf.Options
use redis_protobuf.Options.Accepted.{Names, load_iff}
use redis_protobuf.Persistence.{encoding_version}
use redis_protobuf.Utils.Io.{FileSystem}
use redis_protobuf.Utils.Io.Listing.Returns.{IsLimit}
use redis_protobuf.ProtoFactory.Loader.{Importer, Loader}
use redis_protobuf.ProtoFactory.Factory.{create_factory}
use redis_protobuf.ProtoFactory.Factory.Directory.{IsStripped}
use redis_protobuf.ProtoFactory.Factory.Imported.{ReadsOnly, HasImported}
use redis_protobuf.ProtoFactory.Factory.Constructed.{create_factory-HasImported}
use redis_protobuf.Command.Server.{
  Command, command_name, flags, commands, create_all, create_commands,
}
use redis_protobuf.ModuleEntry.{
  Host, module_name, module_version, type_name, Status, loaded, refused, load, on_load,
}

module _ (H : Host) where
  open H use {State, init, create_type, create_command}

  -- From the one state to the other by the creation of these commands, one after the other.
  pub data Creates : State → List Command → State → Type 0 where
    stop : (s : State) → Creates s [] s
    follow :
        {s t u : State} (c : Command) {cs : List Command}
        → create_command s (command_name c) c (flags c) 1 1 1 ≡ some t
        → Creates t cs u
        → Creates s (c ∷ cs) u

  create_all-Creates :
      (cs : List Command) (s : State) {t : State}
      → create_all create_command cs s ≡ ok t
      → Creates s cs t
  unfolding create_all
  create_all-Creates [] s {t} h = let p : s ≡ t = cc h in subst (Creates s []) p (stop s)
  create_all-Creates (c ∷ cs) s {t = u} h =
      elim (Option-cases (create_command s (command_name c) c (flags c) 1 1 1)) [
        | inl e ↦ cc (rw e at h)
        | inr (t, e) ↦ follow c e (create_all-Creates cs t (rw (create_all, e) at h))
      ]

  create_all-Returns : (cs : List Command) (s : State) → create_all create_command cs s ≢ abort
  unfolding create_all
  create_all-Returns [] s = λ p. cc p
  create_all-Returns (c ∷ cs) s =
      elim (Option-cases (create_command s (command_name c) c (flags c) 1 1 1)) [
        | inl e ↦ rw (create_all, e) (λ p. cc p)
        | inr (t, e) ↦ rw (create_all, e) (create_all-Returns cs t)
      ]

  -- From the one state to the other by the registration of the module, its type and all its commands.
  abbrev pub Registers : State → State → Type 0
  Registers s t =
      (s₁ : State) × (s₂ : State) × (init s module_name module_version ≡ some s₁)
      × ((create_type s₁ type_name encoding_version ≡ some s₂) × Creates s₂ commands t)

  module _ (I : Importer) (look : I.Disk → FileSystem) where
    open I use {Disk}

    -- The load was refused, or Redis has the module with all its commands, and the factory has imported
    -- the files of the directory.
    abbrev pub IsSettled : Bytes → State → Disk → Outcome (Status State Disk) → Type 0
    IsSettled dir s d o =
        ((e : Error) × (o ≡ ok (refused e)))
        ⊎ ((t : State) × (l : Loader Disk) × (o ≡ ok (loaded t l))
            × (Registers s t
                × (IsStripped dir l.proto_dir × HasImported I look (look d) l.proto_dir l)))

    created-IsSettled :
        (depth : ℕ) (dir : Bytes) (argv : List Bytes) (s s₁ s₂ : State) (d : Disk) (l : Loader Disk)
        → init s module_name module_version ≡ some s₁
        → Options.load argv ≡ ok dir
        → create_type s₁ type_name encoding_version ≡ some s₂
        → create_factory I look depth dir d ≡ ok l
        → IsStripped dir l.proto_dir × HasImported I look (look d) l.proto_dir l
        → IsSettled dir s d (on_load H I look depth argv s d)
    unfolding on_load load create_commands
    created-IsSettled depth dir argv s s₁ s₂ d l i o c f k =
        elim (Outcome-cases (create_all create_command commands s₂)) [
          | inl (t, e) ↦ inr (
            t,
            l,
            rw (i, o, c, f, e) refl,
            ((s₁, s₂, i, (c, create_all-Creates commands s₂ e)), k),
          )
          | inr (inl (x, e)) ↦ inl (x, rw (i, o, c, f, e) refl)
          | inr (inr e) ↦ absurd (create_all-Returns commands s₂ e)
        ]

    -- If stat fails for every path of `limit` characters or more, and neither an import nor the
    -- mapping of the directory changes files, then a load of the module whose options name a directory,
    -- on a stack with room for `limit` nested calls of list_dir, ends: Redis is given an error, and a
    -- warning is logged, or Redis has the module, its type and all eleven commands, the directory of the
    -- factory is that of the options without the slashes at its end, and the factory has imported exactly
    -- the regular files below the directory whose extension is "proto".
    pub on_load-IsSettled :
        ReadsOnly I look
        → (limit : ℕ) (dir : Bytes) (argv : List Bytes) (s : State) (d : Disk)
        → IsLimit (look d) limit
        → dir ≢ []
        → Names argv dir
        → IsSettled dir s d (on_load H I look (suc limit) argv s d)
    unfolding on_load load
    on_load-IsSettled reads limit dir argv s d lim ne names =
        let o = (load_iff argv dir).1 (ne, names) in
        elim (Option-cases (init s module_name module_version)) [
          | inl i ↦ inl (init_failed, rw i refl)
          | inr (s₁, i) ↦ elim (Option-cases (create_type s₁ type_name encoding_version)) [
            | inl c ↦ inl (create_type_failed, rw (i, o, c) refl)
            | inr (s₂, c) ↦ elim (create_factory-HasImported I look reads limit dir d lim) [
              | inl (e, f) ↦ inl (e, rw (i, o, c, f) refl)
              | inr (l, f, k) ↦ created-IsSettled (suc limit) dir argv s s₁ s₂ d l i o c f k
            ]
          ]
        ]
