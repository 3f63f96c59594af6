-- ===== src/Stub/Tests.antt =====
-- Runs of the functions at fixed addresses.
use front_mangopi_overlay.Stub.{kprocchild, evenaddr}
use front_mangopi_overlay.Base.{◌≡◌, true, false, refl}

child_sp : (kprocchild 0x1000 0x2000 0x3000 (λ _. 0)).0 ≡ record { pc = 0x2000; sp = 0xff0 }
unfolding kprocchild
child_sp = refl

odd_addr : evenaddr 0x1002 ≡ false
unfolding evenaddr
odd_addr = refl

even_addr : evenaddr 0x1004 ≡ true
unfolding evenaddr
even_addr = refl
