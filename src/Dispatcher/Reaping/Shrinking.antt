-- ===== src/Dispatcher/Reaping/Shrinking.antt =====
-- Waves that have no more active jobs than before, and as many claims.
use issueq.Prelude.{
  String, ◌≡◌, refl, ◌∙◌, Bool, true, false, if◌then◌else◌, Option, none, some, contains, arith,
}
use issueq.Model.{JobStatus, pending}
use issueq.Actions.Merging.{contains-remove_without}
use issueq.Workflow.Finalize.{ObservationFinalization}
use issueq.Dispatcher.{Wave, count_finalized}
use issueq.Dispatcher.Reaping.{drop_active, count_reaped}

-- No job is claimed, and no job becomes active.
pub record Shrinks (wave after : Wave) : Type 0 where
  pub claims : after.result.claimed ≡ wave.result.claimed
  pub active : (l : String) → contains after.active l ≡ true → contains wave.active l ≡ true

pub Shrinks-refl : (wave : Wave) → Shrinks wave wave
Shrinks-refl wave = record { claims = refl; active = λ l h. h }

pub Shrinks-drop : (id : String) (wave : Wave) → Shrinks wave (drop_active id wave)
Shrinks-drop id wave = record {
  claims = refl;
  active = λ l h. let e = contains-remove_without wave.active id l in ground arith;
}

pub Shrinks-trans : {a b c : Wave} → Shrinks a b → Shrinks b c → Shrinks a c
Shrinks-trans h k = record {
  claims = k.claims ∙ h.claims;
  active = λ l e. h.active l (k.active l e);
}

Shrinks-counted :
    (status : Option JobStatus) (wave : Wave) → Shrinks wave (count_finalized status wave)
unfolding count_finalized
Shrinks-counted none wave = record { claims = refl; active = λ l h. h }
Shrinks-counted (some pending) wave = record { claims = refl; active = λ l h. h }
Shrinks-counted (some JobStatus.running) wave = record { claims = refl; active = λ l h. h }
Shrinks-counted (some JobStatus.succeeded) wave = record { claims = refl; active = λ l h. h }
Shrinks-counted (some JobStatus.failed) wave = record { claims = refl; active = λ l h. h }
Shrinks-counted (some JobStatus.dead) wave = record { claims = refl; active = λ l h. h }
Shrinks-counted (some JobStatus.skipped) wave = record { claims = refl; active = λ l h. h }
Shrinks-counted (some JobStatus.cancelled) wave = record { claims = refl; active = λ l h. h }

Shrinks-if :
    (b : Bool) (wave after : Wave) → Shrinks wave after → Shrinks wave (if b then after else wave)
Shrinks-if true wave after h = h
Shrinks-if false wave after h = Shrinks-refl wave

pub Shrinks-count : (f : ObservationFinalization) (wave : Wave) → Shrinks wave (count_reaped f wave)
unfolding count_reaped
Shrinks-count f wave = Shrinks-if f.finalized wave _ (Shrinks-counted f.status wave)
