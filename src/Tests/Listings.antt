-- ===== src/Tests/Listings.antt =====
-- Results, slices and timestamps of the reader.

use pyrealm.Prelude.{ℕ, zero, suc, ◌<◌, ◌≡◌, ◌⊎◌, refl, []}
use pyrealm.Prelude.Integers.{ℤ, pos, negsuc, ◌+ℤ◌, times}
use pyrealm.Reader.{Raw, realm_error, native_error, Answer, answer, raised, Mapping}
use pyrealm.Reader.Slices.All.{all_of}
use pyrealm.Reader.Results.Items.{result_slice, read_at, result_iter, result_iter_valid}
use pyrealm.Reader.Results.Items.Whole.{listed, result_slice-iter}
use pyrealm.Reader.Results.Items.Salvage.{IsNative, result_iter_valid-IsThrough}
use pyrealm.Reader.Results.Iteration.{IsThrough}
use pyrealm.Reader.Timestamp.{outside_message, delta_of, datetime}
use pyrealm.Reader.Timestamp.Range.{IsDatetime, IsMicrosecondOf, datetime_lem}
use pyrealm.Tests.Natives.{native}

abbrev own_size : ℕ → Answer ℕ
own_size count = answer count

abbrev own_item : ℕ → ℤ → Answer (Mapping (Raw ℕ))
own_item count index = native (pos 1) index

result_slice-iter_example :
    result_slice {R = ℕ} {D = ℕ} own_size own_item 2 all_of []
    ≡ listed (result_iter own_size own_item 2 [])
result_slice-iter_example = result_slice-iter own_size own_item 2 []

-- The second of three records is damaged.
abbrev damaged_item : ℕ → ℤ → Answer (Mapping (Raw ℕ))
damaged_item count (pos (suc zero)) = raised (native_error "read Realm query result")
damaged_item count index = native (pos 1) index

damaged_item-IsNative : (index : ℕ) → index < 3 → IsNative (damaged_item 3 (pos index))
damaged_item-IsNative zero within = tt
damaged_item-IsNative (suc zero) within = ("read Realm query result", refl)
damaged_item-IsNative (suc (suc index)) within = tt

result_iter_valid-IsThrough_example :
    IsThrough
      (read_at {R = ℕ} {D = ℕ} own_size damaged_item 3)
      3
      0
      []
      (result_iter_valid own_size damaged_item 3 [])
result_iter_valid-IsThrough_example =
    result_iter_valid-IsThrough own_size damaged_item 3 3 refl damaged_item-IsNative []

-- A nanosecond before the epoch: its microsecond is the last one before the epoch.
before_epoch : datetime (pos 0) (negsuc 0) ≡ answer (negsuc 0)
unfolding datetime delta_of times ◌+ℤ◌
before_epoch = refl

datetime_lem_example :
    ((t : ℤ) × (datetime (pos 0) (negsuc 0) ≡ answer t)
      × IsMicrosecondOf (pos 0) (negsuc 0) t
      × IsDatetime t)
    ⊎ ((datetime (pos 0) (negsuc 0) ≡ raised (realm_error (outside_message (pos 0) (negsuc 0))))
        × ((t : ℤ) → IsMicrosecondOf (pos 0) (negsuc 0) t → IsDatetime t → ⊥))
datetime_lem_example = datetime_lem (pos 0) (negsuc 0)
