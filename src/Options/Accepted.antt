-- ===== src/Options/Accepted.antt =====
-- The arguments that Options::load accepts.
use redis_protobuf.Base.{◌≡◌, ◌≢◌, ◌↔◌, refl, ap, ◌∙◌, true, List, [], ◌∷◌, Bytes, arith}
use redis_protobuf.Errors.{ok, >>=-ok}
use redis_protobuf.Options.{is_dir, required, load_rest, load}

-- `--DIR dir`, behind any number of `--DIR` with an empty text.
abbrev pub Names : List Bytes → Bytes → Type 0
Names [] dir = ⊥
Names (a ∷ []) dir = ⊥
Names (a ∷ d ∷ []) dir = (is_dir a ≡ true) × (d ≡ dir)
Names (a ∷ d ∷ b ∷ rest) dir = (is_dir a ≡ true) × (d ≡ []) × Names (b ∷ rest) dir

rest_sound :
    (argv : List Bytes) {dir : Bytes} → dir ≢ [] → load_rest argv [] ≡ ok dir → Names argv dir
unfolding load_rest
rest_sound [] ne h = ground arith
rest_sound (a ∷ []) ne h = ground arith
rest_sound (a ∷ d ∷ []) ne h = ground arith
rest_sound (a ∷ [] ∷ b ∷ rest) ne h = ground (arith, rest_sound (b ∷ rest) ne)
rest_sound (a ∷ (c ∷ d) ∷ b ∷ []) ne h = ground arith
rest_sound (a ∷ (c ∷ d) ∷ b ∷ e ∷ rest) ne h = ground arith

rest_complete : (argv : List Bytes) {dir : Bytes} → Names argv dir → load_rest argv [] ≡ ok dir
unfolding load_rest
rest_complete [] h = absurd h
rest_complete (a ∷ []) h = absurd h
rest_complete (a ∷ d ∷ []) h = ground arith
rest_complete (a ∷ [] ∷ b ∷ rest) (e, d, h) = ground (arith, rest_complete (b ∷ rest) h)
rest_complete (a ∷ (c ∷ d) ∷ b ∷ rest) (e, k, h) = cc k

required-ok : (d : Bytes) {dir : Bytes} → required d ≡ ok dir → (d ≡ dir) × (dir ≢ [])
required-ok [] h = ground arith
required-ok (c ∷ d) {dir} h = let e : (c ∷ d) ≡ dir = cc h in (e, λ k. cc (e, k))

required_nonempty : (dir : Bytes) → dir ≢ [] → required dir ≡ ok dir
required_nonempty [] ne = absurd (ne refl)
required_nonempty (c ∷ d) ne = refl

load_sound : (argv : List Bytes) {dir : Bytes} → load argv ≡ ok dir → (dir ≢ []) × Names argv dir
unfolding load
load_sound argv {dir} h =
    let (d, e, k) = >>=-ok (load_rest argv []) required h in
    let (same, ne) = required-ok d k in (ne, rest_sound argv ne (e ∙ ap ok same))

load_complete : (argv : List Bytes) (dir : Bytes) → dir ≢ [] → Names argv dir → load argv ≡ ok dir
unfolding load
load_complete argv dir ne h = rw (rest_complete argv h) (required_nonempty dir ne)

-- Options::load accepts exactly the arguments `--DIR dir` with a text that is not empty, in upper or lower
-- case, behind which nothing stands and before which `--DIR` with an empty text may stand any number of
-- times, and gives this directory.
pub load_iff :
    (argv : List Bytes) (dir : Bytes) → (load argv ≡ ok dir) ↔ ((dir ≢ []) × Names argv dir)
load_iff argv dir = (load_sound argv, λ h. load_complete argv dir h.0 h.1)
