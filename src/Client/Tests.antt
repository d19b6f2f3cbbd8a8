-- ===== src/Client/Tests.antt =====
-- Runs of the operations on the client.
use win16sync.Prelude.{◌≡◌, refl, codes, Text}
use win16sync.Text.{copy_text}
use win16sync.Client.{client_init, set_app_info}

version_of :
    (set_app_info (client_init {Socket = Text}) (codes "0.2.3") (codes "C:\\W.EXE")).app_version
    ≡ codes "0.2.3"
unfolding set_app_info copy_text
version_of = refl

host_of : (client_init {Socket = Text}).host ≡ codes "127.0.0.1"
unfolding client_init copy_text
host_of = refl
