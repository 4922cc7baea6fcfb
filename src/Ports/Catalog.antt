-- ===== src/Ports/Catalog.antt =====
-- src/firewall/port_catalog.cpp: the secondary catalogue.
use fedora_firewall_control.Common.{
  ℕ, ◌&&◌, Option, none, some, List, [], ◌∷◌, leb, ◌==◌, if◌then◌else◌,
}
use fedora_firewall_control.Text.{Text, lit, text_eq}

pub record ServiceEntry : Type 0 where
  pub protocol : Text
  pub port : ℕ
  pub label : Text

pub record ServiceRangeEntry : Type 0 where
  pub protocol : Text
  pub first_port : ℕ
  pub last_port : ℕ
  pub label : Text

abbrev entry : Text → ℕ → Text → ServiceEntry
entry protocol port label = record { protocol = protocol; port = port; label = label }

abbrev range_entry : Text → ℕ → ℕ → Text → ServiceRangeEntry
range_entry protocol first last label = record {
  protocol = protocol;
  first_port = first;
  last_port = last;
  label = label;
}

unfoldable pub services : List ServiceEntry
services =
    entry (lit "tcp") 1755 (lit "Microsoft Media Server")
    ∷ entry (lit "tcp") 3129 (lit "HTTP proxy")
    ∷ entry (lit "tcp") 4040 (lit "Apache Spark web UI")
    ∷ entry (lit "tcp") 4317 (lit "OpenTelemetry gRPC collector")
    ∷ entry (lit "tcp") 4318 (lit "OpenTelemetry HTTP collector")
    ∷ entry (lit "tcp") 4443 (lit "alternate HTTPS")
    ∷ entry (lit "tcp") 5044 (lit "Logstash Beats input")
    ∷ entry (lit "tcp") 5141 (lit "Syslog over TLS (alternate)")
    ∷ entry (lit "tcp") 6514 (lit "Syslog over TLS")
    ∷ entry (lit "tcp") 7946 (lit "Docker Swarm control")
    ∷ entry (lit "tcp") 8126 (lit "Datadog trace intake")
    ∷ entry (lit "tcp") 8337 (lit "Bitcoin JSON-RPC")
    ∷ entry (lit "tcp") 8883 (lit "MQTT over TLS")
    ∷ entry (lit "tcp") 9001 (lit "Tor relay ORPort (common)")
    ∷ entry (lit "tcp") 9091 (lit "Prometheus Pushgateway")
    ∷ entry (lit "tcp") 9094 (lit "Kafka")
    ∷ entry (lit "tcp") 9187 (lit "PostgreSQL exporter")
    ∷ entry (lit "tcp") 9443 (lit "alternate HTTPS")
    ∷ entry (lit "tcp") 10248 (lit "Kubernetes kube-proxy health server")
    ∷ entry (lit "tcp") 10249 (lit "Kubernetes kube-proxy metrics")
    ∷ entry (lit "tcp") 10254 (lit "Kubernetes ingress controller metrics")
    ∷ entry (lit "tcp") 10256 (lit "Kubernetes kube-proxy health server")
    ∷ entry (lit "tcp") 12201 (lit "Graylog GELF input")
    ∷ entry (lit "tcp") 1514 (lit "syslog/agent event intake")
    ∷ entry (lit "tcp") 1515 (lit "Wazuh agent enrollment")
    ∷ entry (lit "tcp") 16443 (lit "MicroK8s Kubernetes API")
    ∷ entry (lit "tcp") 19999 (lit "Netdata dashboard")
    ∷ entry (lit "tcp") 2003 (lit "Graphite plaintext metrics")
    ∷ entry (lit "tcp") 2004 (lit "Graphite pickle metrics")
    ∷ entry (lit "tcp") 2006 (lit "Graphite query service")
    ∷ entry (lit "tcp") 24224 (lit "Fluentd forward input")
    ∷ entry (lit "tcp") 50051 (lit "gRPC application service")
    ∷ entry (lit "tcp") 55000 (lit "Wazuh manager API")
    ∷ entry (lit "udp") 1814 (lit "RADIUS accounting (alternate)")
    ∷ entry (lit "udp") 3478 (lit "STUN")
    ∷ entry (lit "udp") 3479 (lit "STUN")
    ∷ entry (lit "udp") 3784 (lit "BFD control")
    ∷ entry (lit "udp") 3785 (lit "BFD echo")
    ∷ entry (lit "udp") 4789 (lit "VXLAN overlay")
    ∷ entry (lit "udp") 5141 (lit "Syslog (alternate)")
    ∷ entry (lit "udp") 7946 (lit "Docker Swarm control")
    ∷ entry (lit "udp") 8125 (lit "StatsD metrics")
    ∷ entry (lit "udp") 8126 (lit "Datadog trace intake")
    ∷ entry (lit "udp") 9001 (lit "Tor relay ORPort (common)")
    ∷ entry (lit "udp") 12201 (lit "Graylog GELF input")
    ∷ entry (lit "udp") 24224 (lit "Fluentd forward input")
    ∷ entry (lit "udp") 51821 (lit "WireGuard (common alternate)")
    ∷ []

unfoldable pub service_ranges : List ServiceRangeEntry
service_ranges =
    range_entry (lit "tcp") 5900 5999 (lit "VNC remote desktop display range")
    ∷ range_entry (lit "tcp") 6000 6063 (lit "X11 display server range")
    ∷ range_entry (lit "tcp") 30000 32767 (lit "Kubernetes NodePort default range")
    ∷ range_entry (lit "udp") 5900 5999 (lit "VNC remote desktop display range")
    ∷ range_entry (lit "udp") 6000 6063 (lit "X11 display server range")
    ∷ range_entry (lit "udp") 30000 32767 (lit "Kubernetes NodePort default range")
    ∷ []

unfoldable pub first_entry : List ServiceEntry → Text → ℕ → Option Text
unfolding text_eq
first_entry [] protocol port = none
first_entry (e ∷ rest) protocol port =
    if text_eq e.protocol protocol && e.port == port
    then some e.label
    else first_entry rest protocol port

unfoldable pub find_service : Text → ℕ → Option Text
unfolding first_entry services
find_service protocol port = first_entry services protocol port

unfoldable pub first_range : List ServiceRangeEntry → Text → ℕ → Option Text
unfolding text_eq
first_range [] protocol port = none
first_range (e ∷ rest) protocol port =
    if text_eq e.protocol protocol && leb e.first_port port && leb port e.last_port
    then some e.label
    else first_range rest protocol port

unfoldable pub find_service_range : Text → ℕ → Option Text
unfolding first_range service_ranges
find_service_range protocol port = first_range service_ranges protocol port
