-- ===== src/Connection/Freeing.antt =====
-- What the end of the resource of a connection does: resource_conn_dealloc_callback of
-- c_src/quicer_nif.c.
use quicer.Prelude.{
  ◌≡◌, refl, true, false, Option, none, some, List, [], ◌∷◌, ◌++◌, ◌==◌, arith, if◌then◌else◌,
  tally, tally-append,
}
use quicer.Queue.{Acceptor, acceptor_queue_destroy}
use quicer.Connection.State.{
  ConnCtx, Effect, deinit_c_ctx, destroy_acceptors, free_trusted, release_config, free_cert,
}
use quicer.Connection.Connect.{destroy_owner}
use quicer.Connection.Calls.{resource_conn_dealloc_callback}
use quicer.Connection.Closing.{close_weight}

-- The release of a closed context closes its handle, once.
abbrev pub ClosesOnce : Option (List Effect) → Type 0
ClosesOnce none = ⊥
ClosesOnce (some fx) = tally close_weight fx ≡ 1

acceptors-light : (q : List Acceptor) → tally close_weight (destroy_acceptors q) ≡ 0
acceptors-light [] = refl
acceptors-light (a ∷ q) = ground (arith, acceptors-light q)

both-light :
    (fx gx : List Effect)
    → tally close_weight fx ≡ 0
    → tally close_weight gx ≡ 0
    → tally close_weight (fx ++ gx) ≡ 0
both-light fx gx a b = ground (arith, tally-append close_weight fx gx)

deinit-light : (c : ConnCtx) → tally close_weight (deinit_c_ctx c) ≡ 0
unfolding deinit_c_ctx acceptor_queue_destroy
deinit-light c =
    let store = free_trusted c.trusted in
    let config : List Effect = elim c.config_resource [
      | none ↦ []
      | some configuration ↦ release_config configuration ∷ []
    ] in
    let acceptors = destroy_acceptors (acceptor_queue_destroy c.acceptor_queue) in
    let cert : List Effect = if c.peer_cert == 0 then [] else free_cert c.peer_cert ∷ [] in
    both-light (store ++ config ++ acceptors) cert
      (both-light (store ++ config) acceptors
        (both-light store config (ground arith) (ground arith))
        (acceptors-light (acceptor_queue_destroy c.acceptor_queue)))
      (ground arith)

pub dealloc-ClosesOnce :
    (c : ConnCtx)
    → c.is_closed ≡ true
    → (c.connection == 0) ≡ false
    → ClosesOnce (resource_conn_dealloc_callback c)
unfolding resource_conn_dealloc_callback destroy_owner
dealloc-ClosesOnce c closed there =
    rw (closed, there)
      (ground (
        arith,
        both-light (destroy_owner c.owner) (deinit_c_ctx c) (ground arith) (deinit-light c),
      ))
