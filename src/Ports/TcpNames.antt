-- ===== src/Ports/TcpNames.antt =====
-- The curated table `service_names` of src/firewall/port_intelligence.cpp: the TCP entries.
use fedora_firewall_control.Common.{List, [], ◌∷◌}
use fedora_firewall_control.Text.{Text, lit}

-- The entries of the `tcp/` keys.
unfoldable pub tcp_names : List (Text × Text)
tcp_names =
    (lit "tcp/1", lit "TCP Port Service Multiplexer")
    ∷ (lit "tcp/5", lit "Remote Job Entry")
    ∷ (lit "tcp/7", lit "Echo diagnostic")
    ∷ (lit "tcp/9", lit "Discard diagnostic")
    ∷ (lit "tcp/11", lit "Systat diagnostic")
    ∷ (lit "tcp/13", lit "Daytime")
    ∷ (lit "tcp/17", lit "Quote of the Day")
    ∷ (lit "tcp/19", lit "Chargen diagnostic")
    ∷ (lit "tcp/20", lit "FTP data")
    ∷ (lit "tcp/21", lit "FTP control")
    ∷ (lit "tcp/22", lit "SSH remote administration")
    ∷ (lit "tcp/23", lit "Telnet remote administration")
    ∷ (lit "tcp/25", lit "SMTP mail transfer")
    ∷ (lit "tcp/37", lit "Time service")
    ∷ (lit "tcp/42", lit "host name service")
    ∷ (lit "tcp/43", lit "WHOIS")
    ∷ (lit "tcp/49", lit "TACACS+ administration")
    ∷ (lit "tcp/53", lit "DNS")
    ∷ (lit "tcp/70", lit "Gopher")
    ∷ (lit "tcp/79", lit "Finger")
    ∷ (lit "tcp/80", lit "HTTP")
    ∷ (lit "tcp/81", lit "alternate HTTP")
    ∷ (lit "tcp/88", lit "Kerberos")
    ∷ (lit "tcp/102", lit "ISO-TSAP")
    ∷ (lit "tcp/110", lit "POP3")
    ∷ (lit "tcp/111", lit "RPCbind")
    ∷ (lit "tcp/113", lit "Ident")
    ∷ (lit "tcp/119", lit "NNTP")
    ∷ (lit "tcp/135", lit "MS RPC endpoint mapper")
    ∷ (lit "tcp/139", lit "NetBIOS session")
    ∷ (lit "tcp/143", lit "IMAP")
    ∷ (lit "tcp/150", lit "Netstat service")
    ∷ (lit "tcp/179", lit "BGP routing")
    ∷ (lit "tcp/194", lit "IRC")
    ∷ (lit "tcp/199", lit "SNMP over TCP")
    ∷ (lit "tcp/210", lit "Z39.50 information retrieval")
    ∷ (lit "tcp/220", lit "IMAP3")
    ∷ (lit "tcp/264", lit "BGMP routing")
    ∷ (lit "tcp/311", lit "AppleShare IP web administration")
    ∷ (lit "tcp/318", lit "TSP time synchronization")
    ∷ (lit "tcp/350", lit "MATIP")
    ∷ (lit "tcp/371", lit "ClearCase version manager")
    ∷ (lit "tcp/389", lit "LDAP")
    ∷ (lit "tcp/406", lit "IMSP")
    ∷ (lit "tcp/427", lit "Service Location Protocol")
    ∷ (lit "tcp/443", lit "HTTPS")
    ∷ (lit "tcp/444", lit "SNPP paging")
    ∷ (lit "tcp/445", lit "SMB file sharing")
    ∷ (lit "tcp/464", lit "Kerberos password change")
    ∷ (lit "tcp/465", lit "SMTP submission over TLS")
    ∷ (lit "tcp/497", lit "retrospect backup")
    ∷ (lit "tcp/500", lit "IKE/IPsec key exchange")
    ∷ (lit "tcp/502", lit "Modbus industrial control")
    ∷ (lit "tcp/512", lit "rexec remote administration")
    ∷ (lit "tcp/513", lit "rlogin remote administration")
    ∷ (lit "tcp/514", lit "rsh remote administration")
    ∷ (lit "tcp/515", lit "LPD printing")
    ∷ (lit "tcp/540", lit "UUCP")
    ∷ (lit "tcp/543", lit "Kerberos login")
    ∷ (lit "tcp/544", lit "Kerberos shell")
    ∷ (lit "tcp/548", lit "AFP file sharing")
    ∷ (lit "tcp/554", lit "RTSP media streaming")
    ∷ (lit "tcp/560", lit "rmonitor")
    ∷ (lit "tcp/563", lit "NNTP over TLS")
    ∷ (lit "tcp/587", lit "SMTP submission")
    ∷ (lit "tcp/593", lit "HTTP RPC endpoint mapper")
    ∷ (lit "tcp/604", lit "TUNNEL profile")
    ∷ (lit "tcp/623", lit "IPMI/RMCP")
    ∷ (lit "tcp/625", lit "Apple Xsan management")
    ∷ (lit "tcp/631", lit "IPP printing")
    ∷ (lit "tcp/636", lit "LDAPS")
    ∷ (lit "tcp/646", lit "LDP/MPLS")
    ∷ (lit "tcp/651", lit "IEEE-MMS")
    ∷ (lit "tcp/657", lit "RMC")
    ∷ (lit "tcp/666", lit "Doom game service")
    ∷ (lit "tcp/694", lit "Linux-HA cluster")
    ∷ (lit "tcp/749", lit "Kerberos administration")
    ∷ (lit "tcp/750", lit "Kerberos IV")
    ∷ (lit "tcp/751", lit "Kerberos password service")
    ∷ (lit "tcp/754", lit "Kerberos V password service")
    ∷ (lit "tcp/760", lit "Kerberos IV database")
    ∷ (lit "tcp/783", lit "SpamAssassin")
    ∷ (lit "tcp/800", lit "MDBS database")
    ∷ (lit "tcp/853", lit "DNS over TLS")
    ∷ (lit "tcp/860", lit "iSCSI")
    ∷ (lit "tcp/873", lit "rsync")
    ∷ (lit "tcp/902", lit "VMware management")
    ∷ (lit "tcp/911", lit "xact-backup")
    ∷ (lit "tcp/912", lit "Apex mesh")
    ∷ (lit "tcp/989", lit "FTPS data")
    ∷ (lit "tcp/990", lit "FTPS control")
    ∷ (lit "tcp/993", lit "IMAPS")
    ∷ (lit "tcp/995", lit "POP3S")
    ∷ (lit "tcp/1025", lit "commonly dynamic MS RPC service")
    ∷ (lit "tcp/1026", lit "commonly dynamic MS RPC service")
    ∷ (lit "tcp/1027", lit "commonly dynamic MS RPC service")
    ∷ (lit "tcp/1028", lit "commonly dynamic MS RPC service")
    ∷ (lit "tcp/1080", lit "SOCKS proxy")
    ∷ (lit "tcp/1099", lit "Java RMI")
    ∷ (lit "tcp/1311", lit "Dell OpenManage")
    ∷ (lit "tcp/1352", lit "Lotus Notes")
    ∷ (lit "tcp/1433", lit "Microsoft SQL Server")
    ∷ (lit "tcp/1494", lit "Citrix ICA")
    ∷ (lit "tcp/1500", lit "VLSI License Manager")
    ∷ (lit "tcp/1521", lit "Oracle database")
    ∷ (lit "tcp/1604", lit "Citrix ICA management")
    ∷ (lit "tcp/1720", lit "H.323 call signaling")
    ∷ (lit "tcp/1723", lit "PPTP VPN")
    ∷ (lit "tcp/1701", lit "L2TP VPN")
    ∷ (lit "tcp/1801", lit "Microsoft Message Queuing")
    ∷ (lit "tcp/1883", lit "MQTT")
    ∷ (lit "tcp/1935", lit "RTMP media streaming")
    ∷ (lit "tcp/2000", lit "Cisco SCCP")
    ∷ (lit "tcp/2049", lit "NFS file sharing")
    ∷ (lit "tcp/2083", lit "RadSec")
    ∷ (lit "tcp/2100", lit "Oracle XDB")
    ∷ (lit "tcp/2181", lit "ZooKeeper")
    ∷ (lit "tcp/2375", lit "Docker API (unencrypted)")
    ∷ (lit "tcp/2376", lit "Docker API (TLS)")
    ∷ (lit "tcp/2379", lit "etcd client API")
    ∷ (lit "tcp/2380", lit "etcd peer API")
    ∷ (lit "tcp/2404", lit "IEC 60870-5-104 industrial control")
    ∷ (lit "tcp/2483", lit "Oracle database")
    ∷ (lit "tcp/2484", lit "Oracle database over TLS")
    ∷ (lit "tcp/2638", lit "Sybase database")
    ∷ (lit "tcp/2809", lit "IBM WebSphere IIOP")
    ∷ (lit "tcp/3000", lit "development web service")
    ∷ (lit "tcp/3128", lit "HTTP proxy")
    ∷ (lit "tcp/3260", lit "iSCSI storage")
    ∷ (lit "tcp/3268", lit "Active Directory global catalog")
    ∷ (lit "tcp/3269", lit "Active Directory global catalog over TLS")
    ∷ (lit "tcp/3306", lit "MySQL/MariaDB")
    ∷ (lit "tcp/3389", lit "RDP remote desktop")
    ∷ (lit "tcp/3478", lit "STUN")
    ∷ (lit "tcp/3690", lit "Subversion")
    ∷ (lit "tcp/4000", lit "development web service")
    ∷ (lit "tcp/4369", lit "Erlang Port Mapper")
    ∷ (lit "tcp/44818", lit "EtherNet/IP industrial control")
    ∷ (lit "tcp/4840", lit "OPC UA industrial control")
    ∷ (lit "tcp/5000", lit "development web service")
    ∷ (lit "tcp/5060", lit "SIP signaling")
    ∷ (lit "tcp/5061", lit "SIP signaling over TLS")
    ∷ (lit "tcp/5222", lit "XMPP client")
    ∷ (lit "tcp/5223", lit "XMPP client over TLS")
    ∷ (lit "tcp/5269", lit "XMPP server federation")
    ∷ (lit "tcp/5432", lit "PostgreSQL")
    ∷ (lit "tcp/5601", lit "Kibana web service")
    ∷ (lit "tcp/5671", lit "AMQP over TLS")
    ∷ (lit "tcp/5672", lit "AMQP")
    ∷ (lit "tcp/5684", lit "CoAP over TCP")
    ∷ (lit "tcp/5900", lit "VNC remote desktop")
    ∷ (lit "tcp/5984", lit "CouchDB")
    ∷ (lit "tcp/5985", lit "WinRM remote administration")
    ∷ (lit "tcp/5986", lit "WinRM over TLS")
    ∷ (lit "tcp/6000", lit "X11 display server")
    ∷ (lit "tcp/6080", lit "noVNC web console")
    ∷ (lit "tcp/6379", lit "Redis")
    ∷ (lit "tcp/6380", lit "Redis over TLS")
    ∷ (lit "tcp/6443", lit "Kubernetes API")
    ∷ (lit "tcp/6667", lit "IRC")
    ∷ (lit "tcp/6697", lit "IRC over TLS")
    ∷ (lit "tcp/7000", lit "AFS file service")
    ∷ (lit "tcp/7001", lit "WebLogic application server")
    ∷ (lit "tcp/7100", lit "X font server")
    ∷ (lit "tcp/7199", lit "Cassandra JMX")
    ∷ (lit "tcp/7474", lit "Neo4j web service")
    ∷ (lit "tcp/7547", lit "TR-069 management")
    ∷ (lit "tcp/7687", lit "Neo4j Bolt")
    ∷ (lit "tcp/8000", lit "alternate HTTP")
    ∷ (lit "tcp/8008", lit "alternate HTTP")
    ∷ (lit "tcp/8009", lit "AJP application connector")
    ∷ (lit "tcp/8032", lit "Hadoop YARN web service")
    ∷ (lit "tcp/8080", lit "alternate HTTP")
    ∷ (lit "tcp/8081", lit "alternate HTTP")
    ∷ (lit "tcp/8088", lit "alternate HTTP")
    ∷ (lit "tcp/8090", lit "alternate HTTP")
    ∷ (lit "tcp/8161", lit "ActiveMQ web console")
    ∷ (lit "tcp/8181", lit "alternate HTTP")
    ∷ (lit "tcp/8333", lit "Bitcoin peer-to-peer")
    ∷ (lit "tcp/8443", lit "alternate HTTPS")
    ∷ (lit "tcp/8500", lit "Consul API")
    ∷ (lit "tcp/8600", lit "Consul DNS")
    ∷ (lit "tcp/8888", lit "alternate HTTP/proxy")
    ∷ (lit "tcp/9000", lit "application/admin service")
    ∷ (lit "tcp/9042", lit "Cassandra database")
    ∷ (lit "tcp/9090", lit "monitoring/application web service")
    ∷ (lit "tcp/9092", lit "Kafka")
    ∷ (lit "tcp/9093", lit "Alertmanager")
    ∷ (lit "tcp/9100", lit "JetDirect printing")
    ∷ (lit "tcp/9153", lit "Tor metrics")
    ∷ (lit "tcp/9160", lit "Cassandra Thrift")
    ∷ (lit "tcp/9200", lit "Elasticsearch REST API")
    ∷ (lit "tcp/9300", lit "Elasticsearch transport")
    ∷ (lit "tcp/9418", lit "Git protocol")
    ∷ (lit "tcp/9997", lit "Splunk forwarding")
    ∷ (lit "tcp/10000", lit "Webmin administration")
    ∷ (lit "tcp/10050", lit "Zabbix agent")
    ∷ (lit "tcp/10051", lit "Zabbix server")
    ∷ (lit "tcp/10250", lit "Kubernetes kubelet API")
    ∷ (lit "tcp/10257", lit "Kubernetes controller manager")
    ∷ (lit "tcp/10259", lit "Kubernetes scheduler")
    ∷ (lit "tcp/11371", lit "OpenPGP keyserver")
    ∷ (lit "tcp/15672", lit "RabbitMQ management web service")
    ∷ (lit "tcp/27017", lit "MongoDB database")
    ∷ (lit "tcp/28017", lit "MongoDB web status (legacy)")
    ∷ (lit "tcp/50000", lit "SAP application service")
    ∷ (lit "tcp/50070", lit "Hadoop NameNode web service")
    ∷ (lit "tcp/61616", lit "ActiveMQ")
    ∷ []
