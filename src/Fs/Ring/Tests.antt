-- ===== src/Fs/Ring/Tests.antt =====
-- Two threads that reserve places in the request ring of the file system front end.
use guestvm_guk.Base.{ℕ, ◌+◌, ◌<◌, ◌≡◌, refl, arith}
use guestvm_guk.Fs.Ring.{outside, reserved, Ring, look, check_room, reserve, commit}
use guestvm_guk.Fs.Ring.Safety.{Steps-IsSafe, commit-progress}
use guestvm_guk.Fs.Ring.Room.{Steps, done, step, looks, checks, reserves, IsSafe}

abbrev empty_ring : Ring
empty_ring = record { size = 4; req_prod_pvt = 0; req_prod = 0; rsp_cons = 0; phase = λ t. outside }

abbrev both_read : Ring
both_read = look (look empty_ring 1) 2

abbrev both_look : Ring
both_look = check_room (check_room both_read 1 0) 2 0

abbrev one_reserves : Ring
one_reserves = reserve (reserve both_look 2 0) 1 0

run : Steps one_reserves empty_ring
unfolding look check_room reserve
run = step empty_ring (look empty_ring 1) (looks 1 refl refl) (
    step (look empty_ring 1) both_read (looks 2 refl refl) (
      step both_read (check_room both_read 1 0) (checks 1 0 refl refl) (
        step (check_room both_read 1 0) both_look (checks 2 0 refl refl) (
          step both_look (reserve both_look 2 0) (reserves 2 0 refl (omega arith) refl) (
            step (reserve both_look 2 0) one_reserves (reserves 1 0 refl (omega arith) refl)
              done)))))

empty_ring-IsSafe : IsSafe empty_ring
empty_ring-IsSafe = record {
  order = (omega arith, omega arith);
  fits = omega arith;
  behind = λ t idx e. cc;
  room = λ t idx e. cc;
  held = λ t idx e. cc;
  once = λ t u idx e f. cc;
  holder = λ idx low high. absurd (omega (arith, low, high));
}

Steps-IsSafe_example : IsSafe one_reserves
Steps-IsSafe_example = Steps-IsSafe one_reserves empty_ring run empty_ring-IsSafe

one_waits : one_reserves.req_prod < one_reserves.req_prod_pvt
unfolding look check_room reserve
one_waits = omega arith

commit-progress_test :
    (t : ℕ) × (one_reserves.phase t ≡ reserved one_reserves.req_prod)
    × ((commit one_reserves t one_reserves.req_prod).req_prod ≡ one_reserves.req_prod + 1)
    × ((commit one_reserves t one_reserves.req_prod).phase t ≡ outside)
commit-progress_test = commit-progress one_reserves empty_ring run empty_ring-IsSafe one_waits
