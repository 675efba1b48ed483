-- ===== src/Scull/Silent.antt =====
-- What main.c registers, and the functions of main.c and util.c that register nothing.
use char_driver_scull.Base.{
  Bool, ℕ, zero, suc, ◌+◌, ◌≡◌, refl, ◌∙◌, ℤ, true, false, List, [], ◌∷◌, arith, if◌then◌else◌,
  nonzero,
}
use char_driver_scull.Kernel.{Kernel, Event, World, M, pure, ◌>>=◌, modify, crash, get, number}
use char_driver_scull.Kernel.Driver.{Ends, Ends-bind, Ends-map}
use char_driver_scull.Kernel.Interface.{Call}
use char_driver_scull.Scull.{
  Vars, Block, ScullDev, ScullQset, load, assign, kfree, entry, as_node, as_device, free_quanta,
  free_array, trim_loop, scull_trim, scull_open, scull_read, scull_write, scull_release,
}
use char_driver_scull.Scull.Files.{FileOp, operate}
use char_driver_scull.Scull.Session.{operate_minor, operate_minors}

-- The device numbers are allocated or returned, or a character device is added with a number, or
-- deleted.
pub data Registration : Type 0 where
  allocated returned : Registration
  added : (cdev devno : ℕ) → Registration
  deleted : (cdev : ℕ) → Registration

-- The registrations of a log, the latest first; an addition that fails counts as well.
abbrev pub registrations : List Event → List Registration
registrations [] = []
registrations (Event.returned (Call.alloc_chrdev_region f n) z ∷ log) =
    if nonzero z then registrations log else allocated ∷ registrations log
registrations (Event.returned (Call.cdev_add c d n) z ∷ log) = added c d ∷ registrations log
registrations (Event.ran (Call.cdev_del c) ∷ log) = deleted c ∷ registrations log
registrations (Event.ran (Call.unregister_chrdev_region d n) ∷ log) = returned ∷ registrations log
registrations (_ ∷ log) = registrations log

-- Nothing is registered.
abbrev pub Same : World Vars → World Vars → Type 0
Same w w' =
    (registrations w'.log ≡ registrations w.log)
    × (w'.vars.scull_devices ≡ w.vars.scull_devices)
    × (w'.vars.devno ≡ w.vars.devno)

abbrev pub Keeps : {A : Type 0} → M Vars A → Type 0
Keeps m = (w : World Vars) → Ends (λ _ w'. Same w w') (m w)

pure-Keeps : {A : Type 0} (a : A) → Keeps (pure a)
pure-Keeps a w = (refl, refl, refl)

crash-Keeps : (A : Type 0) → Keeps (crash {A = A})
crash-Keeps A w = tt

bind-Keeps :
    {A B : Type 0} (m : M Vars A) (f : A → M Vars B)
    → Keeps m
    → ((a : A) → Keeps (f a))
    → Keeps (m >>= f)
bind-Keeps m f h g w =
    Ends-bind (λ _ w'. Same w w') _ w m f (h w)
      λ a v s.
        Ends-map (λ _ w'. Same v w') _ (f a v) (λ b u t. (t.0 ∙ s.0, t.1 ∙ s.1, t.2 ∙ s.2)) (g a v)

load-Keeps : (p : ℕ) → Keeps (load p)
load-Keeps p w = ground arith

kfree-Keeps : (p : ℕ) → Keeps (kfree p)
kfree-Keeps p w = ground arith

assign-Keeps : (p : ℕ) (b : Block) → Keeps (assign p b)
assign-Keeps p b w = ground arith

as_node-Keeps : (b : Block) → Keeps (as_node b)
as_node-Keeps (Block.device d) = crash-Keeps ScullQset
as_node-Keeps (Block.node q) = pure-Keeps q
as_node-Keeps (Block.pointers ps) = crash-Keeps ScullQset
as_node-Keeps Block.quantum = crash-Keeps ScullQset

as_device-Keeps : (b : Block) → Keeps (as_device b)
as_device-Keeps (Block.device d) = pure-Keeps d
as_device-Keeps (Block.node q) = crash-Keeps ScullDev
as_device-Keeps (Block.pointers ps) = crash-Keeps ScullDev
as_device-Keeps Block.quantum = crash-Keeps ScullDev

entry-Keeps : (i : ℕ) (b : Block) → Keeps (entry i b)
entry-Keeps i (Block.pointers ps) = λ w. ground arith
entry-Keeps i (Block.device d) = crash-Keeps ℕ
entry-Keeps i (Block.node q) = crash-Keeps ℕ
entry-Keeps i Block.quantum = crash-Keeps ℕ

if-Keeps : {A : Type 0} (b : Bool) (m n : M Vars A) → Keeps m → Keeps n → Keeps (if b then m else n)
if-Keeps true m n h g = h
if-Keeps false m n h g = g

get-Keeps : Keeps get
get-Keeps w = (refl, refl, refl)

private-Keeps : (dev : ℕ) → Keeps (modify (λ v. record v { private_data = dev }))
private-Keeps dev w = (refl, refl, refl)

copy-Keeps : (k : Kernel) (n : ℕ) → Keeps (number k (Call.copy_to_user n))
copy-Keeps k n w = (refl, refl, refl)

ruleset keeps = (
  pure-Keeps, bind-Keeps, load-Keeps, kfree-Keeps, assign-Keeps, as_node-Keeps, as_device-Keeps,
  entry-Keeps, if-Keeps, get-Keeps, private-Keeps, copy-Keeps,
)

free_quanta-Keeps : (n i array : ℕ) → Keeps (free_quanta n i array)
unfolding free_quanta
free_quanta-Keeps zero i array = pure-Keeps tt
free_quanta-Keeps (suc n) i array = let rest = free_quanta-Keeps n (i + 1) array in search keeps

free_array-Keeps : (qset : ℤ) (dptr : ℕ) (q : ScullQset) → Keeps (free_array qset dptr q)
unfolding free_array
free_array-Keeps qset dptr q = search (keeps, free_quanta-Keeps)

trim_loop-Keeps : (fuel : ℕ) (qset : ℤ) (dptr : ℕ) → Keeps (trim_loop fuel qset dptr)
unfolding trim_loop
trim_loop-Keeps zero qset dptr = crash-Keeps (Unit {0})
trim_loop-Keeps (suc fuel) qset dptr =
    let rest = trim_loop-Keeps fuel in search (keeps, free_array-Keeps) depth 12

scull_trim-Keeps : (fuel dev : ℕ) → Keeps (scull_trim fuel dev)
unfolding scull_trim
scull_trim-Keeps fuel dev = search (keeps, trim_loop-Keeps)

scull_open-Keeps : (offset fuel i_cdev f_flags : ℕ) → Keeps (scull_open offset fuel i_cdev f_flags)
unfolding scull_open
scull_open-Keeps offset fuel i_cdev f_flags = search (keeps, scull_trim-Keeps)

scull_read-Keeps : (k : Kernel) (count f_pos : ℕ) → Keeps (scull_read k count f_pos)
unfolding scull_read
scull_read-Keeps k count f_pos = search keeps

operate-Keeps :
    (k : Kernel) (offset fuel dev : ℕ) (op : FileOp) → Keeps (operate k offset fuel dev op)
unfolding scull_write scull_release
operate-Keeps k offset fuel dev (FileOp.open_file f_flags) = search (keeps, scull_open-Keeps)
operate-Keeps k offset fuel dev (FileOp.read count f_pos) = search (keeps, scull_read-Keeps)
operate-Keeps k offset fuel dev (FileOp.write count f_pos) = search keeps
operate-Keeps k offset fuel dev FileOp.release = search keeps

operate_minor-Keeps :
    (k : Kernel) (offset fuel : ℕ) (op : ℕ × FileOp) → Keeps (operate_minor k offset fuel op)
operate_minor-Keeps k offset fuel (minor, op) = search (keeps, operate-Keeps)

pub operate_minors-Keeps :
    (k : Kernel) (offset fuel : ℕ) (ops : List (ℕ × FileOp))
    → Keeps (operate_minors k offset fuel ops)
operate_minors-Keeps k offset fuel [] = pure-Keeps tt
operate_minors-Keeps k offset fuel ((minor, op) ∷ ops) =
    let rest = operate_minors-Keeps k offset fuel ops in search (keeps, operate_minor-Keeps)
