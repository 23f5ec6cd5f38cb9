-- ===== src/Restore/Swap/Slots.antt =====
-- The three names that a swap uses, and what each system call makes of them.
use borgmatic_manager.Prelude.{
  String, Bool, false, Option, none, some, List, ◌==◌, ◌≡◌, refl, arith, eq_refl,
}
use borgmatic_manager.GoMap.{get, put, remove, IsMap, get-put, get-remove, put-IsMap, remove-IsMap}
use borgmatic_manager.Restore.Disk.{Dir, Disk}

abbrev pub content : Option Dir → Option (List String)
content none = none
content (some d) = some d.entries

abbrev pub is_ours : Option Dir → Bool
is_ours none = false
is_ours (some d) = d.ours

-- The names are different.
pub record AllDistinct (staging target temp : String) : Type 0 where
  pub ts : (target == staging) ≡ false
  pub st : (staging == target) ≡ false
  pub td : (target == temp) ≡ false
  pub dt : (temp == target) ≡ false
  pub sd : (staging == temp) ≡ false
  pub ds : (temp == staging) ≡ false

pub get-put_here : (m : Disk) (k : String) (x : Dir) → get (put m k x) k ≡ some x
get-put_here m k x = ground (arith, get-put m k k x, eq_refl k)

get-put_off : (m : Disk) (k j : String) (x : Dir) → (k == j) ≡ false → get (put m k x) j ≡ get m j
get-put_off m k j x n = ground (arith, get-put m k j x)

get-remove_here : (m : Disk) (k : String) → get (remove m k) k ≡ none
get-remove_here m k = ground (arith, get-remove m k k, eq_refl k)

get-remove_off : (m : Disk) (k j : String) → (k == j) ≡ false → get (remove m k) j ≡ get m j
get-remove_off m k j n = ground (arith, get-remove m k j)

module _ (start : Disk) (staging target temp : String) where
  -- No other name changes.
  pub record IsFramed (disk : Disk) : Type 0 where
    pub others :
        (k : String)
        → (target == k) ≡ false
        → (staging == k) ≡ false
        → (temp == k) ≡ false
        → get disk k ≡ get start k
    pub is_map : IsMap disk

  -- The contents of the three names.
  pub record IsAt (t s d : Option (List String)) (disk : Disk) : Type 0 where
    pub at_target : content (get disk target) ≡ t
    pub at_staging : content (get disk staging) ≡ s
    pub at_temp : content (get disk temp) ≡ d
    pub framed : IsFramed disk

  module _ (n : AllDistinct staging target temp) where
    pub put_target :
        (x : Dir) {t s d : Option (List String)} (disk : Disk)
        → IsAt t s d disk
        → IsAt (some x.entries) s d (put disk target x)
    put_target x disk v = record {
      at_target = rw (get-put_here disk target x) refl;
      at_staging = rw (get-put_off disk target staging x n.ts) v.at_staging;
      at_temp = rw (get-put_off disk target temp x n.td) v.at_temp;
      framed = record {
        others = λ k a b c. rw (get-put_off disk target k x a) (v.framed.others k a b c);
        is_map = put-IsMap disk target x v.framed.is_map;
      };
    }

    pub put_temp :
        (x : Dir) {t s d : Option (List String)} (disk : Disk)
        → IsAt t s d disk
        → IsAt t s (some x.entries) (put disk temp x)
    put_temp x disk v = record {
      at_target = rw (get-put_off disk temp target x n.dt) v.at_target;
      at_staging = rw (get-put_off disk temp staging x n.ds) v.at_staging;
      at_temp = rw (get-put_here disk temp x) refl;
      framed = record {
        others = λ k a b c. rw (get-put_off disk temp k x c) (v.framed.others k a b c);
        is_map = put-IsMap disk temp x v.framed.is_map;
      };
    }

    pub move_target_to_temp :
        (x : Dir) {t s d : Option (List String)} (disk : Disk)
        → IsAt t s d disk
        → IsAt none s (some x.entries) (put (remove disk target) temp x)
    move_target_to_temp x disk v = record {
      at_target =
          rw (get-put_off (remove disk target) temp target x n.dt, get-remove_here disk target)
            refl;
      at_staging =
          rw
            (
              get-put_off (remove disk target) temp staging x n.ds,
              get-remove_off disk target staging n.ts,
            )
            v.at_staging;
      at_temp = rw (get-put_here (remove disk target) temp x) refl;
      framed = record {
        others = λ k a b c.
            rw (get-put_off (remove disk target) temp k x c, get-remove_off disk target k a)
              (v.framed.others k a b c);
        is_map = put-IsMap (remove disk target) temp x (remove-IsMap disk target v.framed.is_map);
      };
    }

    pub move_temp_to_target :
        (x : Dir) {t s d : Option (List String)} (disk : Disk)
        → IsAt t s d disk
        → IsAt (some x.entries) s none (put (remove disk temp) target x)
    move_temp_to_target x disk v = record {
      at_target = rw (get-put_here (remove disk temp) target x) refl;
      at_staging =
          rw
            (
              get-put_off (remove disk temp) target staging x n.ts,
              get-remove_off disk temp staging n.ds,
            )
            v.at_staging;
      at_temp =
          rw (get-put_off (remove disk temp) target temp x n.td, get-remove_here disk temp) refl;
      framed = record {
        others = λ k a b c.
            rw (get-put_off (remove disk temp) target k x a, get-remove_off disk temp k c)
              (v.framed.others k a b c);
        is_map = put-IsMap (remove disk temp) target x (remove-IsMap disk temp v.framed.is_map);
      };
    }

    pub move_staging_to_target :
        (x : Dir) {t s d : Option (List String)} (disk : Disk)
        → IsAt t s d disk
        → IsAt (some x.entries) none d (put (remove disk staging) target x)
    move_staging_to_target x disk v = record {
      at_target = rw (get-put_here (remove disk staging) target x) refl;
      at_staging =
          rw (get-put_off (remove disk staging) target staging x n.ts, get-remove_here disk staging)
            refl;
      at_temp =
          rw
            (
              get-put_off (remove disk staging) target temp x n.td,
              get-remove_off disk staging temp n.sd,
            )
            v.at_temp;
      framed = record {
        others = λ k a b c.
            rw (get-put_off (remove disk staging) target k x a, get-remove_off disk staging k b)
              (v.framed.others k a b c);
        is_map =
            put-IsMap (remove disk staging) target x (remove-IsMap disk staging v.framed.is_map);
      };
    }

    pub trade :
        (x y : Dir) {t s d : Option (List String)} (disk : Disk)
        → IsAt t s d disk
        → IsAt (some x.entries) (some y.entries) d (put (put disk staging y) target x)
    trade x y disk v = record {
      at_target = rw (get-put_here (put disk staging y) target x) refl;
      at_staging =
          rw (get-put_off (put disk staging y) target staging x n.ts, get-put_here disk staging y)
            refl;
      at_temp =
          rw
            (
              get-put_off (put disk staging y) target temp x n.td,
              get-put_off disk staging temp y n.sd,
            )
            v.at_temp;
      framed = record {
        others = λ k a b c.
            rw (get-put_off (put disk staging y) target k x a, get-put_off disk staging k y b)
              (v.framed.others k a b c);
        is_map = put-IsMap (put disk staging y) target x (put-IsMap disk staging y v.framed.is_map);
      };
    }

    pub remove_temp :
        {t s d : Option (List String)} (disk : Disk)
        → IsAt t s d disk
        → IsAt t s none (remove disk temp)
    remove_temp disk v = record {
      at_target = rw (get-remove_off disk temp target n.dt) v.at_target;
      at_staging = rw (get-remove_off disk temp staging n.ds) v.at_staging;
      at_temp = rw (get-remove_here disk temp) refl;
      framed = record {
        others = λ k a b c. rw (get-remove_off disk temp k c) (v.framed.others k a b c);
        is_map = remove-IsMap disk temp v.framed.is_map;
      };
    }
