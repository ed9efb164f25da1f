-- ===== src/Frame/Tests.antt =====
-- Runs of the frame cipher.
use mix_tor.Base.{le_bytes, replicate, arith, ok, List, ◌≢◌, ◌≡◌, ℕ, [], ◌∷◌, refl}
use mix_tor.Samples.{plain}
use mix_tor.Frame.{next_nonce, seal, open_frame, cipher_new, kind_real, kind_dummy}
use mix_tor.Frame.Lockstep.{open_frame-seal}
use mix_tor.Frame.Nonce.{seal_all, nonce_never_repeats}

abbrev key : List ℕ
key = replicate 32 5

abbrev one_frame : List (ℕ × List ℕ)
one_frame = (kind_real, 1 ∷ []) ∷ []

first_nonce : (next_nonce (cipher_new key)).0 ≡ replicate 12 0
unfolding next_nonce le_bytes
first_nonce = refl

nonce_never_repeats_example :
    (next_nonce (seal_all plain (cipher_new key) one_frame)).0
    ≢ (next_nonce (seal_all plain (cipher_new key) ((kind_dummy, []) ∷ one_frame))).0
nonce_never_repeats_example =
    nonce_never_repeats plain key one_frame ((kind_dummy, []) ∷ one_frame) (omega arith)
      (omega arith) (λ e. absurd (omega arith))

opened_frame :
    open_frame plain (cipher_new key) (seal plain (cipher_new key) kind_real (4 ∷ 2 ∷ [])).0
    ≡ (ok (kind_real, 4 ∷ 2 ∷ []), (seal plain (cipher_new key) kind_real (4 ∷ 2 ∷ [])).1)
opened_frame = open_frame-seal plain (cipher_new key) kind_real (4 ∷ 2 ∷ [])
