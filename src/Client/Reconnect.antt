-- ===== src/Client/Reconnect.antt =====
-- `connect` of src/TcpClient.cc after `disconnect`.
use annety.Prelude.{ℕ, ◌≡◌, refl, ap, ◌∙◌, Bool, true, false, ◌&&◌, if_true, if_false, arith}
use annety.Connector.{Connector}
use annety.Connector.Stopped.{start_running}
use annety.Connector
use annety.Client.{TcpClient, connect, disconnect, remove_connection}

disconnect_off :
    (c : TcpClient)
    → c.connect_ ≡ true
    → ((disconnect c).connect_ ≡ false) × ((disconnect c).connector ≡ c.connector)
unfolding disconnect
disconnect_off c h =
    if_true (λ (d : TcpClient). (d.connect_ ≡ false) × (d.connector ≡ c.connector)) c.connect_ _ _ h
      (refl, refl)

removed_off :
    (errno i : ℕ) (c : TcpClient)
    → c.connect_ ≡ false
    → ((remove_connection errno i c).connect_ ≡ false)
      × ((remove_connection errno i c).connector ≡ c.connector)
unfolding remove_connection
removed_off errno i c h =
    if_false (λ (d : TcpClient). (d.connect_ ≡ false) × (d.connector ≡ c.connector))
      (c.retry_ && c.connect_) _ _ (ap (λ b. c.retry_ && b) h ∙ ground arith) (h, refl)

connect_starts :
    (own : Bool) (errno : ℕ) (c : TcpClient)
    → c.connect_ ≡ false
    → (connect own errno c).connector ≡ Connector.start own errno c.connector
unfolding connect
connect_starts own errno c h =
    if_false (λ (d : TcpClient). d.connector ≡ Connector.start own errno c.connector) c.connect_ _ _
      h refl

-- Where a client was to connect and its connector is still set to connect, as it is once it has
-- connected: when the client disconnects, its connection ends, and `connect` is called again,
-- whether retries are enabled or not, the connector is the same as before, so that no attempt
-- begins.
pub connect-disconnect :
    (c : TcpClient) (own : Bool) (e errno i : ℕ)
    → c.connect_ ≡ true
    → c.connector.connect_ ≡ true
    → (connect own errno (remove_connection e i (disconnect c))).connector ≡ c.connector
connect-disconnect c own e errno i h k =
    let off = disconnect_off c h in
    let gone = removed_off e i (disconnect c) off.0 in
    connect_starts own errno (remove_connection e i (disconnect c)) gone.0
    ∙ ap (Connector.start own errno) (gone.1 ∙ off.1)
    ∙ start_running own errno c.connector k
