-- ===== src/Client/Threads/Idle.antt =====
-- `stop` of core/src/detail/client_impl.cpp brings the threads of a client to rest, from wherever they stand.
use py_net_ft.Common.{◌≡◌, false, none, []}
use py_net_ft.Double.{Double}
use py_net_ft.Client.Threads.{System, Steps}

-- No worker lives, none is joined, and the client holds no handle and marks no join.
pub record IsAtRest {F : Type 0} (y : System F) : Type 0 where
  pub no_looping : y.looping ≡ []
  pub no_leaving : y.leaving ≡ []
  pub no_joins : y.pending_joins ≡ []
  pub no_handle : y.client.worker ≡ none
  pub not_joining : y.client.joining ≡ false

module _ {F : Type 0} ⦃d : Double F⦄ where
  -- A run leads to rest.
  abbrev pub Rests : System F → Type 0
  Rests y = (z : System F) × Steps y z × IsAtRest z
