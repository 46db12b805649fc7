-- ===== src/Resource/Mask/Undo.antt =====
-- A region that is claimed (found free, then marked to be reserved) can be given back, by a
-- conversion of the marks or by writing the region free. The `next` of an unlimited mask counts
-- on, so masks are compared without it.
use sampled_mgpu_sim.Prelude.{
  false, length-map, if◌then◌else◌, ℕ, zero, suc, ◌+◌, ◌≤◌, ◌≡◌, refl, sym, ap, ◌∙◌, subst, some,
  List, length, arith, drop,
}
use sampled_mgpu_sim.Resource.Mask.{
  AllocStatus, same, free, to_reserve, ResourceMask, unlimited, limited, next_region, set_status,
  set_status_impl, convert_status, convert_impl,
}
use sampled_mgpu_sim.Resource.Mask.Fill.{
  fill, Run, Run-length, length-fill, fill-zero, set_status-fill, fill-fill, fill_comm, fill-Run,
}
use sampled_mgpu_sim.Resource.Mask.Region.{next_region-Run}
use sampled_mgpu_sim.Resource.Mask.Convert.{
  convert-fill, convert-fill_from, convert_id, Clear, convert-Clear, Clear-fill,
}

abbrev pub strip : ResourceMask → ResourceMask
strip (unlimited next) = unlimited 0
strip (limited mask) = limited mask

-- `setStatus` where it does not panic.
abbrev pub write : ℕ → ℕ → AllocStatus → ResourceMask → ResourceMask
write o n st (unlimited next) = unlimited next
write o n st (limited mask) = limited (fill mask o n st)

-- The region lies in the mask.
abbrev pub Fits : ℕ → ℕ → ResourceMask → Type 0
Fits o n (unlimited next) = Unit {0}
Fits o zero (limited mask) = Unit {0}
Fits o (suc n) (limited mask) = o + suc n ≤ length mask

abbrev pub IsClear : AllocStatus → ResourceMask → Type 0
IsClear st (unlimited next) = Unit {0}
IsClear st (limited mask) = Clear st mask

-- The masks have as many units.
abbrev pub SameSize : ResourceMask → ResourceMask → Type 0
SameSize (unlimited k) (unlimited l) = Unit {0}
SameSize (unlimited k) (limited ys) = ⊥
SameSize (limited xs) (unlimited l) = ⊥
SameSize (limited xs) (limited ys) = length xs ≡ length ys

pub SameSize-refl : (m : ResourceMask) → SameSize m m
SameSize-refl (unlimited k) = tt
SameSize-refl (limited xs) = refl

pub SameSize-sym : (a b : ResourceMask) → SameSize a b → SameSize b a
SameSize-sym (unlimited k) (unlimited l) h = tt
SameSize-sym (unlimited k) (limited l) h = absurd h
SameSize-sym (limited k) (unlimited l) h = absurd h
SameSize-sym (limited k) (limited l) h = sym h

pub SameSize-trans : (a b c : ResourceMask) → SameSize a b → SameSize b c → SameSize a c
SameSize-trans (unlimited k) (unlimited l) (unlimited c) h g = tt
SameSize-trans (unlimited k) (unlimited l) (limited c) h g = absurd g
SameSize-trans (unlimited k) (limited l) c h g = absurd h
SameSize-trans (limited k) (unlimited l) c h g = absurd h
SameSize-trans (limited k) (limited l) (unlimited c) h g = absurd g
SameSize-trans (limited k) (limited l) (limited c) h g = h ∙ g

pub Fits-SameSize : (o n : ℕ) (a b : ResourceMask) → SameSize a b → Fits o n a → Fits o n b
Fits-SameSize o n (unlimited k) (unlimited l) h f = tt
Fits-SameSize o n (unlimited k) (limited l) h f = absurd h
Fits-SameSize o n (limited k) (unlimited l) h f = tt
Fits-SameSize o zero (limited k) (limited l) h f = tt
Fits-SameSize o (suc n) (limited k) (limited l) h f = omega arith

pub SameSize-write : (o n : ℕ) (s : AllocStatus) (m : ResourceMask) → SameSize m (write o n s m)
SameSize-write o n s (unlimited k) = tt
SameSize-write o n s (limited xs) = sym (length-fill xs o n s)

pub strip-write :
    (o n : ℕ) (s : AllocStatus) (m : ResourceMask) → strip (write o n s m) ≡ write o n s (strip m)
strip-write o n s (unlimited k) = refl
strip-write o n s (limited xs) = refl

pub strip-convert :
    (a b : AllocStatus) (m : ResourceMask)
    → strip (convert_status a b m) ≡ convert_status a b (strip m)
unfolding convert_status
strip-convert a b (unlimited k) = refl
strip-convert a b (limited xs) = refl

pub set_status-write :
    (o n : ℕ) (s : AllocStatus) (m : ResourceMask)
    → Fits o n m
    → set_status m o n s ≡ some (write o n s m)
unfolding set_status set_status_impl
set_status-write o n s (unlimited k) f = refl
set_status-write o zero s (limited xs) f = ap (λ ys. some (limited ys)) (sym (fill-zero xs o s))
set_status-write o (suc n) s (limited xs) f = rw (set_status-fill xs o (suc n) s f)

pub write_comm :
    (o n p k : ℕ) (s : AllocStatus) (m : ResourceMask)
    → write p k s (write o n s m) ≡ write o n s (write p k s m)
write_comm o n p k s (unlimited l) = refl
write_comm o n p k s (limited xs) = ap limited (fill_comm xs o n p k s)

pub convert-IsClear :
    (a b : AllocStatus) (m : ResourceMask) → IsClear a m → convert_status a b m ≡ m
unfolding convert_status
convert-IsClear a b (unlimited k) h = refl
convert-IsClear a b (limited xs) h = ap limited (convert_id a b xs h)

-- What `nextRegion` with status free followed by `setStatus` with status toReserve does.
pub record Claimed (o n : ℕ) (before mask after : ResourceMask) : Type 0 where
  pub done : set_status mask o n to_reserve ≡ some after
  pub fits : Fits o n before
  pub size : SameSize before after
  pub undone :
      (b : AllocStatus)
      → strip (write o n free (convert_status to_reserve b after))
        ≡ strip (convert_status to_reserve b before)
  pub cleared :
      strip (convert_status to_reserve free after) ≡ strip (convert_status to_reserve free before)

give_back :
    (b : AllocStatus) (xs : List AllocStatus) (o n : ℕ)
    → Run free n (drop o xs)
    → fill (convert_impl to_reserve b (fill xs o n to_reserve)) o n free
      ≡ convert_impl to_reserve b xs
give_back b xs o n r =
    sym (convert-fill to_reserve b free (fill xs o n to_reserve) o n refl)
    ∙ ap (convert_impl to_reserve b) (fill-fill xs o n to_reserve free ∙ fill-Run xs o n free r)

give_up :
    (xs : List AllocStatus) (o n : ℕ)
    → Run free n (drop o xs)
    → convert_impl to_reserve free (fill xs o n to_reserve) ≡ convert_impl to_reserve free xs
give_up xs o n r =
    convert-fill_from to_reserve free xs o n refl
    ∙ ap (convert_impl to_reserve free) (fill-Run xs o n free r)

Run-Fits : (xs : List AllocStatus) (o n : ℕ) → Run free n (drop o xs) → Fits o n (limited xs)
Run-Fits xs o zero r = tt
Run-Fits xs o (suc n) r = Run-length xs o n free r

-- Every region that `nextRegion` finds can be claimed, and given back.
pub next_region-Claimed :
    (m : ResourceMask) (n : ℕ) {o : ℕ} {mask : ResourceMask}
    → next_region m n free ≡ (some o, mask)
    → Claimed o n m mask (write o n to_reserve mask)
unfolding next_region convert_status
next_region-Claimed (unlimited k) n {o} {mask} e =
    subst (λ m. Claimed o n (unlimited k) m (write o n to_reserve m)) (ap (λ p. p.1) e)
      (record {
        done = set_status-write o n to_reserve (unlimited (k + n)) tt;
        fits = tt;
        size = tt;
        undone = λ b. refl;
        cleared = refl;
      })
next_region-Claimed (limited xs) n {o} {mask} e =
    let run : Run free n (drop o xs) = next_region-Run xs n free (ap (λ p. p.0) e) in
    subst (λ m. Claimed o n (limited xs) m (write o n to_reserve m)) (ap (λ p. p.1) e)
      (record {
        done = set_status-write o n to_reserve (limited xs) (Run-Fits xs o n run);
        fits = Run-Fits xs o n run;
        size = sym (length-fill xs o n to_reserve);
        undone = λ b. ap limited (give_back b xs o n run);
        cleared = ap limited (give_up xs o n run);
      })

-- A search changes no mark.
pub strip-next_region :
    (m : ResourceMask) (n : ℕ) (st : AllocStatus) → strip (next_region m n st).1 ≡ strip m
unfolding next_region
strip-next_region (unlimited k) n st = refl
strip-next_region (limited xs) n st = refl

pub SameSize-strip : (a b : ResourceMask) → strip a ≡ strip b → SameSize a b
SameSize-strip (unlimited k) (unlimited l) h = tt
SameSize-strip (unlimited k) (limited l) h = ground arith
SameSize-strip (limited k) (unlimited l) h = ground arith
SameSize-strip (limited k) (limited l) h = ap length (limited_injective k l h)
  where
    limited_injective : (xs ys : List AllocStatus) → ResourceMask.limited xs ≡ limited ys → xs ≡ ys
    limited_injective xs ys e = cc

pub SameSize-convert : (a b : AllocStatus) (m : ResourceMask) → SameSize m (convert_status a b m)
unfolding convert_status convert_impl
SameSize-convert a b (unlimited k) = tt
SameSize-convert a b (limited xs) = sym (length-map (λ x. if same x a then b else x) xs)

pub IsClear-convert :
    (a b : AllocStatus) (m : ResourceMask) → same b a ≡ false → IsClear a (convert_status a b m)
unfolding convert_status
IsClear-convert a b (unlimited k) h = tt
IsClear-convert a b (limited xs) h = convert-Clear a b xs h

pub IsClear-write :
    (a s : AllocStatus) (o n : ℕ) (m : ResourceMask)
    → same s a ≡ false
    → IsClear a m
    → IsClear a (write o n s m)
IsClear-write a s o n (unlimited k) h c = tt
IsClear-write a s o n (limited xs) h c = Clear-fill a s xs o n h c
