-- ===== src/Ports/OtherNames.antt =====
-- The curated table `service_names` of src/firewall/port_intelligence.cpp: the UDP and SCTP entries.
use fedora_firewall_control.Common.{List, [], ◌∷◌}
use fedora_firewall_control.Text.{Text, lit}

-- The entries of the `udp/` keys.
unfoldable pub udp_names : List (Text × Text)
udp_names =
    (lit "udp/1", lit "TCP Port Service Multiplexer")
    ∷ (lit "udp/7", lit "Echo diagnostic")
    ∷ (lit "udp/9", lit "Discard diagnostic")
    ∷ (lit "udp/13", lit "Daytime")
    ∷ (lit "udp/17", lit "Quote of the Day")
    ∷ (lit "udp/19", lit "Chargen diagnostic")
    ∷ (lit "udp/37", lit "Time service")
    ∷ (lit "udp/42", lit "host name service")
    ∷ (lit "udp/43", lit "WHOIS")
    ∷ (lit "udp/49", lit "TACACS+ administration")
    ∷ (lit "udp/53", lit "DNS")
    ∷ (lit "udp/67", lit "DHCP server")
    ∷ (lit "udp/68", lit "DHCP client")
    ∷ (lit "udp/69", lit "TFTP")
    ∷ (lit "udp/88", lit "Kerberos")
    ∷ (lit "udp/111", lit "RPCbind")
    ∷ (lit "udp/123", lit "NTP")
    ∷ (lit "udp/135", lit "MS RPC endpoint mapper")
    ∷ (lit "udp/137", lit "NetBIOS name service")
    ∷ (lit "udp/138", lit "NetBIOS datagram")
    ∷ (lit "udp/161", lit "SNMP")
    ∷ (lit "udp/162", lit "SNMP trap")
    ∷ (lit "udp/177", lit "XDMCP display manager")
    ∷ (lit "udp/194", lit "IRC")
    ∷ (lit "udp/199", lit "SNMP over UDP")
    ∷ (lit "udp/389", lit "CLDAP")
    ∷ (lit "udp/427", lit "Service Location Protocol")
    ∷ (lit "udp/500", lit "IKE/IPsec key exchange")
    ∷ (lit "udp/512", lit "rexec remote administration")
    ∷ (lit "udp/513", lit "rlogin remote administration")
    ∷ (lit "udp/514", lit "syslog")
    ∷ (lit "udp/520", lit "RIP routing")
    ∷ (lit "udp/546", lit "DHCPv6 client")
    ∷ (lit "udp/547", lit "DHCPv6 server")
    ∷ (lit "udp/548", lit "AFP file sharing")
    ∷ (lit "udp/554", lit "RTSP media streaming")
    ∷ (lit "udp/560", lit "rmonitor")
    ∷ (lit "udp/623", lit "IPMI/RMCP")
    ∷ (lit "udp/631", lit "IPP printing")
    ∷ (lit "udp/646", lit "LDP/MPLS")
    ∷ (lit "udp/989", lit "FTPS data")
    ∷ (lit "udp/990", lit "FTPS control")
    ∷ (lit "udp/1194", lit "OpenVPN")
    ∷ (lit "udp/1434", lit "Microsoft SQL Server Browser")
    ∷ (lit "udp/1645", lit "RADIUS authentication (legacy)")
    ∷ (lit "udp/1646", lit "RADIUS accounting (legacy)")
    ∷ (lit "udp/1701", lit "L2TP VPN")
    ∷ (lit "udp/1812", lit "RADIUS authentication")
    ∷ (lit "udp/1813", lit "RADIUS accounting")
    ∷ (lit "udp/1900", lit "SSDP discovery")
    ∷ (lit "udp/1985", lit "Cisco HSRP")
    ∷ (lit "udp/2049", lit "NFS file sharing")
    ∷ (lit "udp/2222", lit "DirectPlay")
    ∷ (lit "udp/2427", lit "Media gateway control")
    ∷ (lit "udp/3283", lit "Apple Remote Desktop")
    ∷ (lit "udp/3478", lit "STUN")
    ∷ (lit "udp/3479", lit "STUN")
    ∷ (lit "udp/3544", lit "Teredo tunneling")
    ∷ (lit "udp/3702", lit "WS-Discovery")
    ∷ (lit "udp/3784", lit "BFD control")
    ∷ (lit "udp/3785", lit "BFD echo")
    ∷ (lit "udp/3799", lit "RADIUS dynamic authorization")
    ∷ (lit "udp/4500", lit "IPsec NAT traversal")
    ∷ (lit "udp/4789", lit "VXLAN overlay")
    ∷ (lit "udp/4840", lit "OPC UA industrial control")
    ∷ (lit "udp/5004", lit "RTP media")
    ∷ (lit "udp/5005", lit "RTCP media control")
    ∷ (lit "udp/5060", lit "SIP signaling")
    ∷ (lit "udp/5061", lit "SIP signaling over TLS")
    ∷ (lit "udp/5353", lit "mDNS discovery")
    ∷ (lit "udp/5355", lit "LLMNR")
    ∷ (lit "udp/5683", lit "CoAP")
    ∷ (lit "udp/5684", lit "CoAP over DTLS")
    ∷ (lit "udp/6081", lit "XMPP connection manager")
    ∷ (lit "udp/6343", lit "sFlow telemetry")
    ∷ (lit "udp/6881", lit "BitTorrent")
    ∷ (lit "udp/8472", lit "Flannel VXLAN")
    ∷ (lit "udp/8600", lit "Consul DNS")
    ∷ (lit "udp/9993", lit "ZeroTier")
    ∷ (lit "udp/11211", lit "memcached")
    ∷ (lit "udp/20000", lit "DNP3 industrial control")
    ∷ (lit "udp/33434", lit "traceroute (typical first probe)")
    ∷ (lit "udp/44818", lit "EtherNet/IP industrial control")
    ∷ (lit "udp/47808", lit "BACnet building automation")
    ∷ (lit "udp/51820", lit "WireGuard")
    ∷ []

-- The entries of the `sctp/` keys.
unfoldable pub sctp_names : List (Text × Text)
sctp_names =
    (lit "sctp/2905", lit "M3UA signaling")
    ∷ (lit "sctp/36412", lit "S1AP cellular signaling")
    ∷ (lit "sctp/36422", lit "X2AP cellular signaling")
    ∷ (lit "sctp/38412", lit "NGAP 5G signaling")
    ∷ (lit "sctp/3868", lit "Diameter")
    ∷ []
