-- ===== src/Panel/Pages.antt =====
-- server/internal/panel/api_server.go, api_stats.go, panel.go: the text for nginx, the series of the
-- traffic, and the page of the panel.
use ligend.Prelude.{ℕ, zero, suc, ◌+◌, ◌*◌, ◌%◌, List, [], ◌∷◌, ◌++◌, Option, none, some}
use ligend.Prelude.Bytes.{Bytes}
use ligend.Prelude.Texts.{codes}
use ligend.Config.{Config}
use ligend.Tunnel.Manager.{active_sessions}
use ligend.Server.{Server}
use ligend.Panel.Http.{Method, get, Response, success, failure, method_not_allowed}

abbrev pub domain_or_default : Bytes → Bytes
domain_or_default [] = codes "your-domain.com"
domain_or_default (c ∷ cs) = c ∷ cs

-- The parameter `domain` of the request, as it is given, and three settings.
unfoldable pub nginx_text : Config → Bytes → Bytes
nginx_text cfg domain =
    codes "server {\n    listen 443 ssl http2;\n    server_name "
    ++ (domain
        ++ (codes ";\n\n    ssl_certificate /etc/letsencrypt/live/"
            ++ (domain
                ++ (codes "/fullchain.pem;\n    ssl_certificate_key /etc/letsencrypt/live/"
                    ++ (domain
                        ++ (codes
                              "/privkey.pem;\n    ssl_protocols TLSv1.2 TLSv1.3;\n    ssl_ciphers HIGH:!aNULL:!MD5;\n\n"
                            ++ (codes "    # Ligend VPN WebSocket Tunnel (Anti-DPI)\n    location "
                                ++ (cfg.web_socket_path
                                    ++ (codes " {\n        proxy_pass http://127.0.0.1"
                                        ++ (cfg.listen_addr
                                            ++ (codes
                                                  ";\n        proxy_http_version 1.1;\n        proxy_set_header Upgrade $http_upgrade;\n"
                                                ++ (codes
                                                      "        proxy_set_header Connection \"upgrade\";\n        proxy_set_header Host $host;\n"
                                                    ++ (codes
                                                          "        proxy_set_header X-Real-IP $remote_addr;\n        proxy_read_timeout 3600s;\n"
                                                        ++ (codes
                                                            "        proxy_send_timeout 3600s;\n    }\n\n    # Cover website\n    location / {\n        root "
                                                            ++ (cfg.web_root
                                                            ++ codes
                                                            ";\n        index index.html;\n        try_files $uri $uri/ =404;\n    }\n}")))))))))))))))

unfoldable pub handle_nginx_config : Server → Method → Bytes → Response Bytes
handle_nginx_config s get domain = success (nginx_text s.cfg (domain_or_default domain))
handle_nginx_config s _ domain = failure method_not_allowed

pub record TrafficDataPoint : Type 0 where
  pub timestamp : Bytes
  pub bytes_up : ℕ
  pub bytes_down : ℕ

-- The points of the hours before, from the `i - 1`st on; `hour_text` is how the time so many hours ago is
-- shown. No traffic is looked at.
unfoldable pub traffic_series : (ℕ → Bytes) → ℕ → List TrafficDataPoint
traffic_series hour_text zero = []
traffic_series hour_text (suc i) =
    record {
      timestamp = hour_text i;
      bytes_up = 1024 * 1024 * (5 + i * 7 % 25);
      bytes_down = 1024 * 1024 * (20 + i * 13 % 60);
    }
    ∷ traffic_series hour_text i

unfoldable pub handle_stats_traffic : (ℕ → Bytes) → Method → Response (List TrafficDataPoint)
handle_stats_traffic hour_text get = success (traffic_series hour_text 24)
handle_stats_traffic hour_text _ = failure method_not_allowed

-- The number of connections; the figures of the machine are left out.
unfoldable pub handle_stats_system : Server → Method → Response ℕ
handle_stats_system s get = success (active_sessions s.sessions)
handle_stats_system s _ = failure method_not_allowed

abbrev pub candidates : List Bytes
candidates =
    codes "panel/index.html"
    ∷ codes "../panel/index.html"
    ∷ codes "/etc/ligend/panel/index.html"
    ∷ codes "c:/Users/zakha/Desktop/Ligend/server/panel/index.html"
    ∷ []

abbrev pub not_found_page : Bytes
not_found_page =
    codes
      "<html><body><h2>GOmp Studios Ligend Panel</h2><p>Frontend file not found.</p></body></html>"

-- The first of the files that can be read.
unfoldable pub first_page : (Bytes → Option Bytes) → List Bytes → Bytes
first_page read_file [] = not_found_page
first_page read_file (c ∷ cs) =
    let later = first_page read_file cs in elim (read_file c) [ none ↦ later | some page ↦ page ]

unfoldable pub serve_frontend : (Bytes → Option Bytes) → Bytes
serve_frontend read_file = first_page read_file candidates
