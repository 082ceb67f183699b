-- ===== src/ProtoFactory/Factory/Paths.antt =====
-- The paths of the files below the proto directory, and lists of their names.
use mathlib.Core.Path.{subst}
use redis_protobuf.Base.{
  ◌+◌, ◌≡◌, refl, sym, ◌∙◌, ap, Bool, true, false, ◌&&◌, ◌||◌, List, [], ◌∷◌, ◌++◌, append_assoc,
  Bytes, codes, beq, elem, length, length-append, substr, ltb, arith, if◌then◌else◌,
}
use redis_protobuf.Utils.Io.{FileSystem, join}
use redis_protobuf.Utils.Io.Listing.{Below, here, inside}

pub beq-append : (a s t : Bytes) → beq (a ++ s) (a ++ t) ≡ beq s t
beq-append [] s t = refl
beq-append (c ∷ a) s t = ground (arith, beq-append a s t)

pub substr-append : (a s : Bytes) → substr (a ++ s) (length a) ≡ s
substr-append [] [] = refl
substr-append [] (c ∷ s) = refl
substr-append (c ∷ a) s = substr-append a s

pub length_dir : (dir : Bytes) → length (dir ++ codes "/") ≡ length dir + 1
length_dir dir = length-append dir (codes "/")

pub substr-join : (dir rel : Bytes) → substr (join dir rel) (length dir + 1) ≡ rel
substr-join dir rel =
    subst (λ n. substr (join dir rel) n ≡ rel) (length_dir dir)
      (substr-append (dir ++ codes "/") rel)

pub long_enough : (dir rel : Bytes) → ltb (length (join dir rel)) (length dir + 1) ≡ false
long_enough dir rel =
    let e : length (join dir rel) ≡ length (dir ++ codes "/") + length rel =
      length-append (dir ++ codes "/") rel in
    let e' = length_dir dir in ground (arith, e, e')

pub join-join :
    (path name rel : Bytes) → join (join path name) rel ≡ join path (name ++ codes "/" ++ rel)
join-join path name rel =
    append_assoc (path ++ codes "/" ++ name) (codes "/") rel
    ∙ append_assoc (path ++ codes "/") name (codes "/" ++ rel)
    ∙ sym (ap (λ t. (path ++ codes "/") ++ t) (append_assoc name (codes "/") rel))

pub Below-join :
    (F : FileSystem) {path file : Bytes}
    → Below F path file
    → (rel : Bytes) × (file ≡ join path rel)
Below-join F (here name e) = (name, refl)
Below-join F {path} (inside name e below) =
    let (rel, p) = Below-join F below in (name ++ codes "/" ++ rel, p ∙ join-join path name rel)

pub elem-if :
    (g rel : Bytes) (b : Bool) (loaded : List Bytes)
    → elem rel (if b then g ∷ loaded else loaded) ≡ ((beq g rel && b) || elem rel loaded)
elem-if g rel true loaded = ground arith
elem-if g rel false loaded = ground arith

pub same_choice :
    (i b c loaded files : Bool)
    → (i ≡ true → b ≡ c)
    → (((i && b) || loaded) || (files && c)) ≡ (loaded || ((if i then true else files) && c))
same_choice true b c loaded files h = rw (h refl) (ground arith)
same_choice false b c loaded files h = ground arith
