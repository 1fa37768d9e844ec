-- ===== src/Proxy/Sides.antt =====
-- baseproxy.cpp: adding contexts to the sides of a proxy, and shutdown.
use socle.Prelude.{ℕ, ◌+◌, true, none, List, [], ◌∷◌, ◌++◌, length, ℤ}
use socle.Proxy.{
  Outside, unblock, com_set_monitor, com_set_poll_handler, BaseProxy, tell, at, set_context, set_cx,
  shutdown_cx,
}

module _ (w : Outside) where
  -- `set_monitor` and `set_poll_handler` of the proxy's Com
  abbrev pub watched : ℤ → BaseProxy → BaseProxy
  watched s p = tell (com_set_poll_handler s) (tell (com_set_monitor s) p)

  abbrev pub adopt : ℕ → BaseProxy → BaseProxy
  adopt i p = set_cx i (record (at p i) { has_parent_proxy = true }) p

  abbrev pub translated : ℕ → BaseProxy → ℤ
  translated i p = (w.answers i).translate_socket (at p i).fds_

  unfoldable pub ladd : ℕ → BaseProxy → BaseProxy
  ladd i p =
      let p' = watched (at p i).fds_ (tell (unblock i) p) in
      adopt i (record p' { left_sockets = p'.left_sockets ++ i ∷ [] })

  unfoldable pub radd : ℕ → BaseProxy → BaseProxy
  radd i p =
      let p' = watched (at p i).fds_ (tell (unblock i) p) in
      adopt i (record p' { right_sockets = p'.right_sockets ++ i ∷ [] })

  unfoldable pub lbadd : ℕ → BaseProxy → BaseProxy
  lbadd i p =
      let p' = watched (translated i p) p in
      adopt i (record p' { left_bind_sockets = p'.left_bind_sockets ++ i ∷ [] })

  unfoldable pub rbadd : ℕ → BaseProxy → BaseProxy
  rbadd i p =
      let p' = watched (translated i p) p in
      adopt i (record p' { right_bind_sockets = p'.right_bind_sockets ++ i ∷ [] })

  abbrev pub made_permanent : ℕ → BaseProxy → BaseProxy
  made_permanent i p = set_cx i (record (at p i) { permanent_ = true }) p

  unfoldable pub lpcadd : ℕ → BaseProxy → BaseProxy
  lpcadd i p =
      let p' = watched (translated i p) (made_permanent i p) in
      adopt i (record p' { left_pc_cx = p'.left_pc_cx ++ i ∷ [] })

  unfoldable pub rpcadd : ℕ → BaseProxy → BaseProxy
  rpcadd i p =
      let p' = watched (translated i p) (made_permanent i p) in
      adopt i (record p' { right_pc_cx = p'.right_pc_cx ++ i ∷ [] })

  unfoldable pub ldaadd : ℕ → BaseProxy → BaseProxy
  ldaadd i p =
      let p' = watched (translated i p) (tell (unblock i) p) in
      adopt i (record p' { left_delayed_accepts = p'.left_delayed_accepts ++ i ∷ [] })

  unfoldable pub rdaadd : ℕ → BaseProxy → BaseProxy
  rdaadd i p =
      let p' = watched (translated i p) (tell (unblock i) p) in
      adopt i (record p' { right_delayed_accepts = p'.right_delayed_accepts ++ i ∷ [] })

unfoldable pub drop_cx : ℕ → BaseProxy → BaseProxy
drop_cx i p =
    let p' = set_context i (record (p.contexts i) { peer = none }) p in
    record p' { trashcan = p'.trashcan ++ i ∷ [] }

unfoldable pub shutdown_each : List ℕ → BaseProxy → BaseProxy
shutdown_each [] p = p
shutdown_each (i ∷ is) p = shutdown_each is (shutdown_cx i p)

unfoldable pub drop_each : List ℕ → BaseProxy → BaseProxy
drop_each [] p = p
drop_each (i ∷ is) p = drop_each is (drop_cx i p)

unfoldable pub left_shutdown : BaseProxy → BaseProxy
left_shutdown p₀ =
    let p₁ = shutdown_each p₀.left_bind_sockets p₀ in
    let p₂ = shutdown_each p₀.left_sockets p₁ in
    let p₃ = shutdown_each p₀.left_pc_cx p₂ in
    let p₄ = shutdown_each p₀.left_delayed_accepts p₃ in
    let p₅ = record (drop_each p₀.left_bind_sockets p₄) { left_bind_sockets = [] } in
    let p₆ = record (drop_each p₀.left_sockets p₅) { left_sockets = [] } in
    let p₇ = record (drop_each p₀.left_pc_cx p₆) { left_pc_cx = [] } in
    record (drop_each p₀.left_delayed_accepts p₇) { left_delayed_accepts = [] }

unfoldable pub right_shutdown : BaseProxy → BaseProxy
right_shutdown p₀ =
    let p₁ = shutdown_each p₀.right_bind_sockets p₀ in
    let p₂ = shutdown_each p₀.right_sockets p₁ in
    let p₃ = shutdown_each p₀.right_pc_cx p₂ in
    let p₄ = shutdown_each p₀.right_delayed_accepts p₃ in
    let p₅ = record (drop_each p₀.right_bind_sockets p₄) { right_bind_sockets = [] } in
    let p₆ = record (drop_each p₀.right_sockets p₅) { right_sockets = [] } in
    let p₇ = record (drop_each p₀.right_pc_cx p₆) { right_pc_cx = [] } in
    record (drop_each p₀.right_delayed_accepts p₇) { right_delayed_accepts = [] }

-- `shutdown`
abbrev pub shutdown_proxy : BaseProxy → BaseProxy
shutdown_proxy p = right_shutdown (left_shutdown p)

unfoldable pub lsize : BaseProxy → ℕ
lsize p =
    length p.left_sockets
    + length p.left_bind_sockets
    + length p.left_pc_cx
    + length p.left_delayed_accepts

unfoldable pub rsize : BaseProxy → ℕ
rsize p =
    length p.right_sockets
    + length p.right_bind_sockets
    + length p.right_pc_cx
    + length p.right_delayed_accepts
