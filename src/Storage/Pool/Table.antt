-- ===== src/Storage/Pool/Table.antt =====
-- The array of frames after one write.
use gs_dbengine.Base.{ℕ, ◌≡◌, false, ◌==◌, ==_refl}
use gs_dbengine.Storage.Pool.{Frame, set_frame}

pub set_frame_self : (slot : ℕ) (f : Frame) (frames : ℕ → Frame) → set_frame slot f frames slot ≡ f
unfolding set_frame
set_frame_self slot f frames = rw (==_refl slot)

pub set_frame_ne :
    (slot : ℕ) (f : Frame) (frames : ℕ → Frame) (s : ℕ)
    → (s == slot) ≡ false
    → set_frame slot f frames s ≡ frames s
unfolding set_frame
set_frame_ne slot f frames s h = rw h
