-- ===== src/Server/Walk.antt =====
-- The walk of doRun over the changes of the ports, one port at a time.
use ssgo.Prelude.{ℕ, ◌≡◌, refl, List, [], ◌∷◌, Option, none, some, arith}
use ssgo.Io.{Error, on_error, wrap, failed_to_remove, failed_to_start_port}
use ssgo.Service.CipherList.{CipherEntry}
use ssgo.Server.{Ports, Sockets, ciphers_of, start_port, remove_port, change_ports}

-- Without an error the walk has gone on.
pub went_on :
    (o : Option Error) (f : Error → Error) (m : Ports) (x : Ports × Option Error)
    → (on_error o (λ e. (m, some (f e))) x).1 ≡ none
    → (o ≡ none) × (on_error o (λ e. (m, some (f e))) x ≡ x)
went_on none f m x h = (refl, refl)
went_on (some e) f m x h = ground arith

module _ (net : Sockets) (wanted served : Ports) where
  -- One port of the walk.
  abbrev pub step :
      ℕ
      → List ℕ
      → Ports
      → Option (List CipherEntry)
      → Option (List CipherEntry)
      → Ports × Option Error
  step q order m none none = change_ports net wanted served order m
  step q order m none (some cs) =
      on_error (remove_port net q m).1
        (λ x. ((remove_port net q m).0, some (wrap failed_to_remove x)))
        (change_ports net wanted served order (remove_port net q m).0)
  step q order m (some ks) none =
      on_error (start_port net q m).1
        (λ x. ((start_port net q m).0, some (wrap failed_to_start_port x)))
        (change_ports net wanted served order (start_port net q m).0)
  step q order m (some ks) (some cs) = change_ports net wanted served order m

  pub change_ports_nil : (m : Ports) → change_ports net wanted served [] m ≡ (m, none)
  unfolding change_ports
  change_ports_nil m = refl

  pub change_ports_lem :
      (q : ℕ) (order : List ℕ) (m : Ports)
      → change_ports net wanted served (q ∷ order) m
        ≡ step q order m (ciphers_of q wanted) (ciphers_of q served)
  unfolding change_ports
  change_ports_lem q order m = by_tests (ciphers_of q wanted) (ciphers_of q served) refl refl
    where
      by_tests :
          (o o' : Option (List CipherEntry))
          → ciphers_of q wanted ≡ o
          → ciphers_of q served ≡ o'
          → change_ports net wanted served (q ∷ order) m ≡ step q order m o o'
      by_tests none none e e' = rw (e, e', change_ports) refl
      by_tests none (some cs) e e' = rw (e, e', change_ports) refl
      by_tests (some ks) none e e' = rw (e, e', change_ports) refl
      by_tests (some ks) (some cs) e e' = rw (e, e', change_ports) refl
