-- ===== src/Tunnel.antt =====
-- manager/ipc_client.go: the states of a tunnel.
pub data TunnelState : Type 0 where
  unknown started stopped starting stopping : TunnelState
